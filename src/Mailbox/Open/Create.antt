-- ===== src/Mailbox/Open/Create.antt =====
-- do_openMailbox where it creates a mailbox.
use gjworks.Common.{
  ℕ, ◌<◌, ◌≡◌, ◌≢◌, refl, ap, ◌∙◌, true, some, List, [], ◌∷◌, arith, length, ◌+◌, ◌%◌, ◌^◌, str_eq,
  str_eq_refl, All,
}
use gjworks.Mailbox.Lookup.{get_mailbox_by_name}
use gjworks.Machine.{ok, Heap, update}
use gjworks.Machine.Chain.{
  Chain, Absent, find_first, snoc, Attached, attach-Attached, Attached-Chain, last, last-Absent,
}
use gjworks.Mailbox.State.{mailbox_link, Mailbox, Pm, World, value, max_mailbox_count}
use gjworks.Mailbox.Lookup.Laws.{get_mailbox_by_name-eq-find_first, get_mailbox_count-eq-length}
use gjworks.Mailbox.Nodes.{list_append, make_node}
use gjworks.Mailbox.Open.{open_named, create_mailbox, fill_mailbox, add_process}

-- `malloc` happens to give a struct whose three process lists are NULL.
pub record IsBlank (b : Mailbox) : Type 0 where
  pub no_owner : b.owner ≡ 0
  pub no_senders : b.sender_list ≡ 0
  pub no_receivers : b.receiver_list ≡ 0

-- The new mailbox, from what `malloc` gave.
abbrev pub created : Mailbox → List ℕ → ℕ → Mailbox
created b name id = record b { id = id; name = name; next = 0 }

fill_mailbox-created :
    (fuel : ℕ) (w : World) (a : ℕ) (name : List ℕ) (pid : ℕ) (s : Pm) (b : Mailbox)
    → a ≢ 0
    → s.mailboxes a ≡ some b
    → IsBlank b
    → (s' : Pm) × (fill_mailbox fuel w a name pid s ≡ ok (value s.g_last_mailbox_id, s'))
      × (s'.mailboxes a ≡ some (created b name s.g_last_mailbox_id))
      × ((q : ℕ) → q ≢ a → s'.mailboxes q ≡ s.mailboxes q)
      × (s'.g_mailbox ≡ s.g_mailbox)
      × (s'.g_last_mailbox_id ≡ (s.g_last_mailbox_id + 1) % 2 ^ 32)
unfolding fill_mailbox add_process list_append make_node
fill_mailbox-created fuel w a name pid s b nz at blank =
    let s₁ =
      (make_node pid (record s {
        mailboxes = update s.mailboxes a (some (record b { next = 0; name = name }));
      })).1 in
    let s₂ = (make_node pid s₁).1 in
    let s' = record s₂ {
      mailboxes = update s₂.mailboxes a (some (created b name s.g_last_mailbox_id));
      g_last_mailbox_id = (s.g_last_mailbox_id + 1) % 2 ^ 32;
    } in
    (
      s',
      ground (arith, blank.no_owner, blank.no_senders, blank.no_receivers),
      ground arith,
      λ q ne. ground arith,
      refl,
      refl,
    )

-- What a successful creation leaves: the list `l'` of mailboxes and the new one among them.
pub record Created (fuel : ℕ) (name : List ℕ) (s s' : Pm) (l : List (ℕ × Mailbox)) (b : Mailbox)
    : Type 0 where
  pub mailboxes : List (ℕ × Mailbox)
  pub chain : Chain s'.mailboxes s'.g_mailbox mailboxes
  pub longer : length mailboxes ≡ length l + 1
  pub found : get_mailbox_by_name fuel s'.mailboxes s'.g_mailbox name ≡ ok s.fresh
  pub there : s'.mailboxes s.fresh ≡ some (created b name s.g_last_mailbox_id)
  pub next_id : s'.g_last_mailbox_id ≡ (s.g_last_mailbox_id + 1) % 2 ^ 32

length-snoc : (l : List (ℕ × Mailbox)) (a : ℕ) (d : Mailbox) → length (snoc l a d) ≡ length l + 1
unfolding snoc
length-snoc [] a d = omega arith
length-snoc (x ∷ []) a d = omega arith
length-snoc (x ∷ y ∷ l) a d = omega (arith, length-snoc (y ∷ l) a d)

find_first-snoc :
    (name : List ℕ) (l : List (ℕ × Mailbox)) (a : ℕ) (d : Mailbox)
    → All (λ e. e.0 ≢ 0) l
    → find_first (λ b. str_eq b.name name) l ≡ 0
    → d.name ≡ name
    → find_first (λ b. str_eq b.name name) (snoc l a d) ≡ a
unfolding snoc
find_first-snoc name [] a d nz e same = rw same (rw (str_eq_refl name))
find_first-snoc name ((b, c) ∷ []) a d nz e same = ground (arith, str_eq_refl name, nz.0)
find_first-snoc name ((b, c) ∷ y ∷ l) a d nz e same =
    ground (arith, nz.0, find_first-snoc name (y ∷ l) a d nz.1)

Chain-nonzero :
    (h : Heap Mailbox) (p : ℕ) (l : List (ℕ × Mailbox)) → Chain h p l → All (λ e. e.0 ≢ 0) l
Chain-nonzero h p [] ch = tt
Chain-nonzero h p ((a, c) ∷ l) ch = (ch.1, Chain-nonzero h c.next l ch.4)

module _ (fuel : ℕ) (w : World) (name : List ℕ) (s : Pm) (nz : s.fresh ≢ 0) where
  abbrev blank : Mailbox
  blank = w.junk_mailbox s.fresh

  -- Creating a mailbox of a new name below the limit of five, where `malloc` gives NULL pointers:
  -- the next id is returned and moves on, the list of mailboxes stays well formed and is one longer,
  -- getMailboxByName finds the new mailbox, and its lists of senders and receivers are both still
  -- NULL, since listAppend assigned its own parameter.
  pub open_creates :
      (l : List (ℕ × Mailbox))
      → Chain s.mailboxes s.g_mailbox l
      → length l < max_mailbox_count
      → max_mailbox_count < fuel
      → w.o_creat s.m_in.i1 ≡ true
      → find_first (λ b. str_eq b.name name) l ≡ 0
      → Absent s.fresh l
      → IsBlank blank
      → (s' : Pm) × (open_named fuel w name s ≡ ok (value s.g_last_mailbox_id, s'))
        × Created fuel name s s' l blank
  unfolding open_named create_mailbox snoc
  open_creates [] ch few lt flag e away is_blank =
      let s₁ = record s {
        mailboxes = update s.mailboxes s.fresh (some blank);
        g_mailbox = s.fresh;
        fresh = s.fresh + 1;
      } in
      let (s', run, at, kept, g, id) =
        fill_mailbox-created fuel w s.fresh name (w.mp_pid s.who_p) s₁ blank nz (ground arith)
          is_blank in
      let ms : List (ℕ × Mailbox) = (s.fresh, created blank name s.g_last_mailbox_id) ∷ [] in
      let ch' : Chain s'.mailboxes s'.g_mailbox ms = (g, nz, at, tt, refl) in
      (
        s',
        ground (arith, run),
        record {
          mailboxes = ms;
          chain = ch';
          longer = refl;
          found =
              get_mailbox_by_name-eq-find_first s'.mailboxes fuel s'.g_mailbox name ms ch'
                (omega arith)
              ∙ ap ok (
                  find_first-snoc name [] s.fresh (created blank name s.g_last_mailbox_id) tt refl
                    refl);
          there = at;
          next_id = id;
        },
      )
  open_creates (x ∷ l) ch few lt flag e away is_blank =
      let a = s.fresh in
      let (h₁, run₁, at₁) =
        attach-Attached fuel s.mailboxes s.g_mailbox x l a blank ch (omega arith) away in
      let s₁ = record s { mailboxes = h₁; fresh = a + 1 } in
      let (s', run, at, kept, g, id) =
        fill_mailbox-created fuel w a name (w.mp_pid s.who_p) s₁ blank nz at₁.new is_blank in
      let d = created blank name s.g_last_mailbox_id in
      let ms : List (ℕ × Mailbox) = snoc (x ∷ l) a d in
      let linked : Attached s.mailboxes s'.mailboxes x l a d = record {
        new = at;
        linked = kept (last x l).0 (last-Absent x l a away) ∙ at₁.linked;
        kept = λ q ne ne'. kept q ne ∙ at₁.kept q ne ne';
      } in
      let ch' : Chain s'.mailboxes s'.g_mailbox ms =
        rw g (Attached-Chain s.mailboxes s'.mailboxes s.g_mailbox x l a d ch nz away refl linked) in
      (
        s',
        ground (
          arith,
          run,
          run₁,
          ch.0,
          ch.1,
          get_mailbox_count-eq-length s.mailboxes fuel s.g_mailbox (x ∷ l) ch (omega arith),
          get_mailbox_by_name-eq-find_first s.mailboxes fuel s.g_mailbox name (x ∷ l) ch
              (omega arith),
        ),
        record {
          mailboxes = ms;
          chain = ch';
          longer = length-snoc (x ∷ l) a d;
          found =
              get_mailbox_by_name-eq-find_first s'.mailboxes fuel s'.g_mailbox name ms ch'
                (omega (arith, length-snoc (x ∷ l) a d))
              ∙ ap ok (
                  find_first-snoc name (x ∷ l) a d
                    (Chain-nonzero s.mailboxes s.g_mailbox (x ∷ l) ch) e refl);
          there = at;
          next_id = id;
        },
      )
