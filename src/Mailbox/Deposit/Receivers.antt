-- ===== src/Mailbox/Deposit/Receivers.antt =====
-- The loop of do_depositMessage over the receivers of a message.
use gjworks.Common.{
  ℕ, zero, suc, ◌≤◌, ◌<◌, ◌≡◌, ◌≢◌, refl, ap, ◌∙◌, Bool-cases, inl, inr, some, List, [], ◌∷◌, arith,
  length, ◌+◌, if◌then◌else◌, All,
}
use gjworks.Machine.{ok, Heap, load-some, store-some, update}
use gjworks.Machine.Chain.{Chain, Absent}
use gjworks.Mailbox.State.{node_link, Node, Message, Pm}
use gjworks.Mailbox.Fetch.{positive}
use gjworks.Mailbox.Nodes.{lone_node}
use gjworks.Mailbox.Nodes.Append.{pids}
use gjworks.Mailbox.Deposit.{add_receivers}

-- The receivers that are taken: up to the first that is not positive, and at most `left`.
abbrev pub accepted : ℕ → List ℕ → List ℕ
accepted zero xs = []
accepted (suc left) [] = []
accepted (suc left) (x ∷ xs) = if positive x then x ∷ accepted left xs else []

-- What the rest of the loop adds behind the node at `r`.
record Behind (s s' : Pm) (r : ℕ) (xs : List ℕ) (x : ℕ) : Type 0 where
  head : Node
  same_pid : head.pid ≡ x
  rest : List (ℕ × Node)
  chain : Chain s'.nodes r ((r, head) ∷ rest)
  added : pids rest ≡ xs
  above : All (λ e. s.fresh ≤ e.0) rest
  kept : (q : ℕ) → q < s.fresh → q ≢ r → s'.nodes q ≡ s.nodes q
  grown : s.fresh ≤ s'.fresh
  unchanged : (s'.messages ≡ s.messages) × (s'.mailboxes ≡ s.mailboxes)

All-Absent : (r n : ℕ) (l : List (ℕ × Node)) → r < n → All (λ e. n ≤ e.0) l → Absent r l
All-Absent r n [] lt h = tt
All-Absent r n (x ∷ l) lt h = (λ e. absurd (omega arith), All-Absent r n l lt h.1)

All-weaken : (m n : ℕ) (l : List (ℕ × Node)) → m ≤ n → All (λ e. n ≤ e.0) l → All (λ e. m ≤ e.0) l
All-weaken m n [] le h = tt
All-weaken m n (x ∷ l) le h = (omega arith, All-weaken m n l le h.1)

module _ (m : ℕ) where
  add_receivers-Behind :
      (left : ℕ) (xs : List ℕ) (r x : ℕ) (s : Pm)
      → left ≤ length xs
      → r ≢ 0
      → r < s.fresh
      → s.nodes r ≡ some (lone_node x)
      → (s' : Pm) × (add_receivers left xs r m s ≡ ok s') × Behind s s' r (accepted left xs) x
  unfolding add_receivers
  add_receivers-Behind zero xs r x s le nz lt at = (
    s,
    refl,
    record {
      head = lone_node x;
      same_pid = refl;
      rest = [];
      chain = (refl, nz, at, tt, refl);
      added = refl;
      above = tt;
      kept = λ q h e. refl;
      grown = omega arith;
      unchanged = (refl, refl);
    },
  )
  add_receivers-Behind (suc left) [] r x s le nz lt at = absurd (omega arith)
  add_receivers-Behind (suc left) (y ∷ xs) r x s le nz lt at = elim (Bool-cases (positive y)) [
    | inr stop ↦ (
      s,
      ground arith,
      record {
        head = lone_node x;
        same_pid = refl;
        rest = [];
        chain = (refl, nz, at, tt, refl);
        added = rw stop;
        above = tt;
        kept = λ q h e. refl;
        grown = omega arith;
        unchanged = (refl, refl);
      },
    )
    | inl go ↦
        let a = s.fresh in
        let h : Heap Node = update s.nodes a (some (lone_node y)) in
        let h' : Heap Node = update h r (some (record { pid = x; next = a })) in
        let s₁ = record s { nodes = h'; fresh = a + 1 } in
        let (s', run, b) =
          add_receivers-Behind left xs a y s₁ (omega arith) (omega arith) (omega arith)
            (ground arith) in
        (
          s',
          ground (
            arith,
            load-some s.nodes r (lone_node x),
            store-some h r (lone_node x) (record { pid = x; next = a }),
          ),
          record {
            head = record { pid = x; next = a };
            same_pid = refl;
            rest = (a, b.head) ∷ b.rest;
            chain = (
              refl,
              nz,
              b.kept r (omega arith) (omega arith) ∙ ground arith,
              (omega arith, All-Absent r (a + 1) b.rest (omega arith) b.above),
              b.chain,
            );
            added = ground (arith, b.same_pid, b.added);
            above = (omega arith, All-weaken a (a + 1) b.rest (omega arith) b.above);
            kept = λ q below ne. b.kept q (omega arith) (omega arith) ∙ ground arith;
            grown = omega (arith, b.grown);
            unchanged = b.unchanged;
          },
        )
  ]

  -- What the loop makes of a message with no receivers: the state, and the receivers of the message.
  pub record Listed (s s' : Pm) (msg : Message) (xs : List ℕ) : Type 0 where
    pub head : ℕ
    pub list : List (ℕ × Node)
    pub chain : Chain s'.nodes head list
    pub listed : pids list ≡ xs
    pub message : s'.messages m ≡ some (record msg { receiver_list = head })
    pub others : (q : ℕ) → q ≢ m → s'.messages q ≡ s.messages q
    pub mailboxes : s'.mailboxes ≡ s.mailboxes

  -- With at least as many places as rounds, the loop from NULL gives the message the receivers up
  -- to the first that is not positive, in order.
  pub add_receivers-Listed :
      (left : ℕ) (xs : List ℕ) (msg : Message) (s : Pm)
      → left ≤ length xs
      → m ≢ 0
      → s.fresh ≢ 0
      → s.messages m ≡ some msg
      → msg.receiver_list ≡ 0
      → (s' : Pm) × (add_receivers left xs 0 m s ≡ ok s') × Listed s s' msg (accepted left xs)
  unfolding add_receivers
  add_receivers-Listed zero xs msg s le nz fz at none_yet = (
    s,
    refl,
    record {
      head = 0;
      list = [];
      chain = refl;
      listed = refl;
      message = ground arith;
      others = λ q e. refl;
      mailboxes = refl;
    },
  )
  add_receivers-Listed (suc left) [] msg s le nz fz at none_yet = absurd (omega arith)
  add_receivers-Listed (suc left) (y ∷ xs) msg s le nz fz at none_yet =
      elim (Bool-cases (positive y)) [
        | inr stop ↦ (
          s,
          ground arith,
          record {
            head = 0;
            list = [];
            chain = refl;
            listed = rw stop;
            message = ground arith;
            others = λ q e. refl;
            mailboxes = refl;
          },
        )
        | inl go ↦
            let a = s.fresh in
            let msg' = record msg { receiver_list = a } in
            let s₁ = record s {
              nodes = update s.nodes a (some (lone_node y));
              fresh = a + 1;
              messages = update s.messages m (some msg');
            } in
            let (s', run, b) =
              add_receivers-Behind left xs a y s₁ (omega arith) fz (omega arith) (ground arith) in
            (
              s',
              ground (arith, load-some s.messages m msg, store-some s.messages m msg msg'),
              record {
                head = a;
                list = (a, b.head) ∷ b.rest;
                chain = b.chain;
                listed = ground (arith, b.same_pid, b.added);
                message = ap (λ (h : Heap Message). h m) b.unchanged.0 ∙ ground arith;
                others = λ q e. ap (λ (h : Heap Message). h q) b.unchanged.0 ∙ ground arith;
                mailboxes = b.unchanged.1;
              },
            )
      ]
