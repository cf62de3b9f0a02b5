-- ===== src/Mailbox/Retrieve/Take.antt =====
-- The inner loop of retrieveMessage, on the list of the receivers of a message.
use gjworks.Common.{
  ℕ, zero, suc, ◌<◌, ◌≡◌, ◌≢◌, ◌⊎◌, inl, inr, Bool-cases, true, false, none, some, List, [], ◌∷◌,
  arith, length, ◌==◌,
}
use gjworks.Machine.{ok, Heap, load-some, free-some, store-some, update}
use gjworks.Machine.Chain.{Chain}
use gjworks.Mailbox.State.{mailbox_link, node_link, message_link, Node}
use gjworks.Mailbox.Lookup.Laws.{has_pid}
use gjworks.Mailbox.Retrieve.{take_receiver}

module _ (nodes : Heap Node) (pid : ℕ) where
  pub take_receiver-none :
      (fuel r previous : ℕ) (l : List (ℕ × Node))
      → Chain nodes r l
      → length l < fuel
      → has_pid pid l ≡ false
      → take_receiver fuel nodes r previous pid ≡ ok none
  unfolding take_receiver
  take_receiver-none zero r previous l ch lt e = absurd (omega arith)
  take_receiver-none (suc fuel) r previous [] ch lt e = ground arith
  take_receiver-none (suc fuel) r previous ((a, n) ∷ l) ch lt e =
      ground (arith, load-some nodes r n, take_receiver-none fuel n.next r l ch.4)

  pub take_receiver-some :
      (fuel r previous : ℕ) (l : List (ℕ × Node))
      → Chain nodes r l
      → length l < fuel
      → has_pid pid l ≡ true
      → (previous ≡ 0) ⊎ ((c : Node) × (nodes previous ≡ some c))
      → (nodes' : Heap Node) × (take_receiver fuel nodes r previous pid ≡ ok (some nodes'))
  unfolding take_receiver
  take_receiver-some zero r previous l ch lt e before = absurd (omega arith)
  take_receiver-some (suc fuel) r previous [] ch lt e before = cc
  take_receiver-some (suc fuel) r previous ((a, n) ∷ l) ch lt e before =
      elim (Bool-cases (n.pid == pid)) [
        | inr other ↦
            let (nodes', run) =
              take_receiver-some fuel n.next r l ch.4 (omega arith) (ground arith)
                (inr (n, ground arith)) in
            (nodes', ground (arith, load-some nodes r n))
        | inl here ↦ elim (Bool-cases (previous == 0)) [
          | inl first ↦
              (update nodes r none, ground (arith, load-some nodes r n, free-some nodes r n))
          | inr inner ↦ elim before [
            | inl e ↦ absurd (ground arith)
            | inr (c, at) ↦
                let c' = record c { next = n.next } in
                let h = update nodes previous (some c') in
                elim (Bool-cases (previous == r)) [
                  | inl same ↦ (
                    update h r none,
                    ground (
                      arith,
                      load-some nodes r n,
                      load-some nodes previous c,
                      store-some nodes previous c c',
                      free-some h r c',
                    ),
                  )
                  | inr apart ↦ (
                    update h r none,
                    ground (
                      arith,
                      load-some nodes r n,
                      load-some nodes previous c,
                      store-some nodes previous c c',
                      free-some h r n,
                    ),
                  )
                ]
          ]
        ]
      ]

pub has_pid-nonempty :
    (nodes : Heap Node) (pid p : ℕ) (r : List (ℕ × Node))
    → Chain nodes p r
    → has_pid pid r ≡ true
    → p ≢ 0
has_pid-nonempty nodes pid p [] ch e = cc
has_pid-nonempty nodes pid p ((a, n) ∷ r) ch e = ground (arith, ch.0, ch.1)
