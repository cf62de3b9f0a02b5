-- ===== src/Mailbox/Blocked/Unblock.antt =====
-- unblockSender and isAnySenderUnblocked.
use gjworks.Common.{
  ℕ, zero, suc, ◌<◌, ◌≡◌, refl, ◌∙◌, Bool, true, false, some, List, [], ◌∷◌, ◌||◌, arith, length,
  ◌==◌, Bool-cases, inl, inr,
}
use gjworks.Machine.{ok, Heap, load-some, update}
use gjworks.Machine.Chain.{Chain, Absent, Chain-update}
use gjworks.Mailbox.State.{blocked_link, BlockedSender}
use gjworks.Mailbox.Blocked.{unblock_sender, is_any_sender_unblocked}

abbrev pub mark : ℕ → BlockedSender → BlockedSender
mark id b = record b { unblocked = b.mailbox_id == id || b.unblocked }

-- The contexts with those of a mailbox marked.
abbrev pub marked : ℕ → List (ℕ × BlockedSender) → List (ℕ × BlockedSender)
marked id [] = []
marked id ((a, b) ∷ l) = (a, mark id b) ∷ marked id l

marked-Absent : (id a : ℕ) (l : List (ℕ × BlockedSender)) → Absent a l → Absent a (marked id l)
marked-Absent id a [] h = h
marked-Absent id a ((b, c) ∷ l) h = (h.0, marked-Absent id a l h.1)

-- unblockSender marks every context of the mailbox as unblocked, and leaves the others, the order
-- and all other structs as they are.
pub unblock_sender-marked :
    (h : Heap BlockedSender) (fuel p id : ℕ) (l : List (ℕ × BlockedSender))
    → Chain h p l
    → length l < fuel
    → (h' : Heap BlockedSender) × (unblock_sender fuel h p id ≡ ok h')
      × Chain h' p (marked id l)
      × ((q : ℕ) → Absent q l → h' q ≡ h q)
unfolding unblock_sender
unblock_sender-marked h zero p id l ch lt = absurd (omega arith)
unblock_sender-marked h (suc fuel) p id [] ch lt = (h, ground arith, ch, λ q e. refl)
unblock_sender-marked h (suc fuel) p id ((a, b) ∷ l) ch lt =
    elim (Bool-cases (b.mailbox_id == id)) [
      | inl same ↦
          let h₁ = update h p (some (record b { unblocked = true })) in
          let ch₁ : Chain h₁ b.next l =
            rw ch.0 (Chain-update h b.next l a (some (record b { unblocked = true })) ch.3 ch.4) in
          let (h', run, rest, kept) = unblock_sender-marked h₁ fuel b.next id l ch₁ (omega arith) in
          (
            h',
            ground (arith, load-some h p b, ch.0, ch.1, ch.2),
            (ch.0, ch.1, kept a ch.3 ∙ ground (arith, ch.0), marked-Absent id a l ch.3, rest),
            λ q e. kept q e.1 ∙ ground (arith, ch.0, e.0),
          )
      | inr other ↦
          let (h', run, rest, kept) = unblock_sender-marked h fuel b.next id l ch.4 (omega arith) in
          (
            h',
            ground (arith, load-some h p b, ch.0, ch.1, ch.2),
            (ch.0, ch.1, kept a ch.3 ∙ ch.2 ∙ ground arith, marked-Absent id a l ch.3, rest),
            λ q e. kept q e.1,
          )
    ]

abbrev pub any_unblocked : List (ℕ × BlockedSender) → Bool
any_unblocked [] = false
any_unblocked ((a, b) ∷ l) = b.unblocked || any_unblocked l

pub is_any_sender_unblocked-eq :
    (h : Heap BlockedSender) (fuel p : ℕ) (l : List (ℕ × BlockedSender))
    → Chain h p l
    → length l < fuel
    → is_any_sender_unblocked fuel h p ≡ ok (any_unblocked l)
unfolding is_any_sender_unblocked
is_any_sender_unblocked-eq h zero p l ch lt = absurd (omega arith)
is_any_sender_unblocked-eq h (suc fuel) p [] ch lt = ground arith
is_any_sender_unblocked-eq h (suc fuel) p ((a, b) ∷ l) ch lt =
    ground (arith, load-some h p b, is_any_sender_unblocked-eq h fuel b.next l ch.4 (omega arith))
