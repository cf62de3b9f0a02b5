-- ===== src/Mailbox/Retrieve/Delivered.antt =====
-- What retrieveMessage delivers.
use gjworks.Common.{
  ℕ, zero, suc, ◌<◌, ◌≡◌, ◌≢◌, refl, ap, ◌∙◌, ◌+◌, inl, inr, Bool-cases, false, Option, none, some,
  List, [], ◌∷◌, arith, length, if◌then◌else◌,
}
use gjworks.Machine.{ok, fault, Heap, load-some, load-freed, free-some, update}
use gjworks.Machine.Chain.{Chain}
use gjworks.Mailbox.State.{mailbox_link, node_link, message_link, Node, Message, Mailbox, Pm, World}
use gjworks.Mailbox.Lookup.Laws.{has_pid}
use gjworks.Mailbox.Retrieve.Take.{take_receiver-none, take_receiver-some, has_pid-nonempty}
use gjworks.Mailbox.Retrieve.{take_receiver, deliver_copy, retrieve_loop, retrieve_message}

-- The receivers of each message, in order.
abbrev pub Addressed : Heap Node → ℕ → List (ℕ × Message) → List (List (ℕ × Node)) → Type 0
Addressed nodes bound [] rs = Unit
Addressed nodes bound ((a, m) ∷ q) [] = ⊥
Addressed nodes bound ((a, m) ∷ q) (r ∷ rs) =
    Chain nodes m.receiver_list r × (length r < bound) × Addressed nodes bound q rs

-- The text of the first message that is addressed to the process.
abbrev pub first_text : ℕ → List (ℕ × Message) → List (List (ℕ × Node)) → Option (List ℕ)
first_text pid [] rs = none
first_text pid (x ∷ q) [] = none
first_text pid ((a, m) ∷ q) (r ∷ rs) = if has_pid pid r then some m.text else first_text pid q rs

-- The copy of the text that the caller gets, at the address `malloc` gave.
abbrev pub Copied : ℕ → List ℕ → Pm → Type 0
Copied a text s = (copy : Message) × (s.messages a ≡ some copy) × (copy.text ≡ text)

deliver_copy-Copied :
    (fuel : ℕ) (w : World) (id m previous : ℕ) (msg : Message) (nodes : Heap Node) (s : Pm)
    → msg.receiver_list ≢ 0
    → (s' : Pm) × (deliver_copy fuel w id m previous msg nodes s ≡ ok (s.fresh, s'))
      × Copied s.fresh msg.text s'
unfolding deliver_copy
deliver_copy-Copied fuel w id m previous msg nodes s left =
    let copy = record (w.junk_message s.fresh) { text = msg.text } in
    (
      record s {
        nodes = nodes;
        messages = update s.messages s.fresh (some copy);
        fresh = s.fresh + 1;
      },
      ground arith,
      (copy, ground arith, refl),
    )

module _ (w : World) (id pid : ℕ) (s : Pm) (bound : ℕ) where
  retrieve_loop-some :
      (fuel m previous : ℕ) (q : List (ℕ × Message)) (rs : List (List (ℕ × Node))) (text : List ℕ)
      → Chain s.messages m q
      → Addressed s.nodes bound q rs
      → bound + length q < fuel
      → first_text pid q rs ≡ some text
      → (s' : Pm) × (retrieve_loop fuel w id pid m previous 0 s ≡ ok (s.fresh, s'))
        × Copied s.fresh text s'
  unfolding retrieve_loop
  retrieve_loop-some zero m previous q rs text ch ad lt e = absurd (omega arith)
  retrieve_loop-some (suc fuel) m previous [] rs text ch ad lt e = cc
  retrieve_loop-some (suc fuel) m previous ((a, msg) ∷ q) [] text ch ad lt e = cc
  retrieve_loop-some (suc fuel) m previous ((a, msg) ∷ q) (r ∷ rs) text ch ad lt e =
      elim (Bool-cases (has_pid pid r)) [
        | inl mine ↦
            let (nodes', run) =
              take_receiver-some s.nodes pid (suc fuel) msg.receiver_list 0 r ad.0
                (omega (arith, ad.1)) mine (inl refl) in
            let (s', run', copied) =
              deliver_copy-Copied (suc fuel) w id m previous msg nodes' s
                (has_pid-nonempty s.nodes pid msg.receiver_list r ad.0 mine) in
            let same : msg.text ≡ text = ground arith in
            (s', ground (arith, load-some s.messages m msg), (copied.0, copied.1, copied.2 ∙ same))
        | inr other ↦
            let (s', run, copied) =
              retrieve_loop-some fuel msg.next m q rs text ch.4 ad.2 (omega arith) (ground arith) in
            (
              s',
              ground (
                arith,
                load-some s.messages m msg,
                take_receiver-none s.nodes pid (suc fuel) msg.receiver_list 0 r ad.0
                    (omega (arith, ad.1)) other,
              ),
              copied,
            )
      ]

  retrieve_loop-none :
      (fuel m previous : ℕ) (q : List (ℕ × Message)) (rs : List (List (ℕ × Node)))
      → Chain s.messages m q
      → Addressed s.nodes bound q rs
      → bound + length q < fuel
      → first_text pid q rs ≡ none
      → retrieve_loop fuel w id pid m previous 0 s ≡ ok (0, s)
  unfolding retrieve_loop
  retrieve_loop-none zero m previous q rs ch ad lt e = absurd (omega arith)
  retrieve_loop-none (suc fuel) m previous [] rs ch ad lt e = ground arith
  retrieve_loop-none (suc fuel) m previous ((a, msg) ∷ q) [] ch ad lt e = absurd ad
  retrieve_loop-none (suc fuel) m previous ((a, msg) ∷ q) (r ∷ rs) ch ad lt e =
      let other : has_pid pid r ≡ false = ground arith in
      ground (
        arith,
        load-some s.messages m msg,
        take_receiver-none s.nodes pid (suc fuel) msg.receiver_list 0 r ad.0 (omega (arith, ad.1))
            other,
        retrieve_loop-none fuel msg.next m q rs ch.4 ad.2 (omega arith),
      )

-- With NULL in the uninitialised `_tmp`, retrieveMessage returns a copy of the text of the first
-- message in the mailbox that is addressed to the process, and NULL, with nothing changed, if no
-- message is.
pub retrieve_message-first_text :
    (fuel bound : ℕ) (w : World) (p pid : ℕ) (s : Pm) (b : Mailbox) (q : List (ℕ × Message))
    (rs : List (List (ℕ × Node)))
    → p ≢ 0
    → s.mailboxes p ≡ some b
    → w.junk_pointer ≡ 0
    → Chain s.messages b.message_list q
    → Addressed s.nodes bound q rs
    → bound + length q < fuel
    → ((text : List ℕ)
        → first_text pid q rs ≡ some text
        → (s' : Pm) × (retrieve_message fuel w p pid s ≡ ok (s.fresh, s')) × Copied s.fresh text s')
      × (first_text pid q rs ≡ none → retrieve_message fuel w p pid s ≡ ok (0, s))
unfolding retrieve_message
retrieve_message-first_text fuel bound w p pid s b q rs nz at null ch ad lt = (
  λ text e.
      let (s', run, copied) =
        retrieve_loop-some w b.id pid s bound fuel b.message_list 0 q rs text ch ad lt e in
      (s', rw (load-some s.mailboxes p b nz at) (start ∙ run), copied),
  λ e.
      rw (load-some s.mailboxes p b nz at)
        (start ∙ retrieve_loop-none w b.id pid s bound fuel b.message_list 0 q rs ch ad lt e),
)
  where
    start :
        retrieve_loop fuel w b.id pid b.message_list 0 w.junk_pointer s
        ≡ retrieve_loop fuel w b.id pid b.message_list 0 0 s
    start = ap (λ t. retrieve_loop fuel w b.id pid b.message_list 0 t s) null

-- If the process is the first receiver of the first message, that message keeps a pointer to the
-- freed node: after the call, which returns, the next retrieveMessage of any process is undefined.
pub retrieve_twice_dangles :
    (fuel : ℕ) (w : World) (p pid other : ℕ) (s : Pm) (b : Mailbox) (a : ℕ) (msg : Message)
    (q : List (ℕ × Message)) (r : ℕ) (n : Node) (l : List (ℕ × Node))
    → p ≢ 0
    → s.mailboxes p ≡ some b
    → Chain s.messages b.message_list ((a, msg) ∷ q)
    → Chain s.nodes msg.receiver_list ((r, n) ∷ l)
    → n.pid ≡ pid
    → a ≢ s.fresh
    → 0 < fuel
    → (s' : Pm) × (retrieve_message fuel w p pid s ≡ ok (s.fresh, s'))
      × (retrieve_message fuel w p other s' ≡ fault)
unfolding retrieve_message retrieve_loop take_receiver deliver_copy
retrieve_twice_dangles zero w p pid other s b a msg q r n l nz at ch rch e old lt =
    absurd (omega arith)
retrieve_twice_dangles (suc fuel) w p pid other s b a msg q r n l nz at ch rch e old lt =
    let copy = record (w.junk_message s.fresh) { text = msg.text } in
    let nodes = update s.nodes r none in
    let messages = update s.messages s.fresh (some copy) in
    (
      record s { nodes = nodes; messages = messages; fresh = s.fresh + 1 },
      ground (
        arith,
        load-some s.mailboxes p b,
        load-some s.messages b.message_list msg,
        load-some s.nodes msg.receiver_list n,
        free-some s.nodes msg.receiver_list n,
        rch.0,
      ),
      ground (
        arith,
        load-some s.mailboxes p b,
        load-some messages b.message_list msg,
        load-freed s.nodes msg.receiver_list r,
        rch.0,
      ),
    )
