-- ===== src/Mailbox/Lookup/Senders.antt =====
-- isValidSender: what it decides, and where it loops for ever.
use gjworks.Common.{
  ℕ, zero, suc, ◌<◌, ◌≡◌, Bool, true, false, some, if◌then◌else◌, List, [], ◌∷◌, arith, length,
  ◌==◌,
}
use gjworks.Machine.{Run, ok, out_of_fuel, Heap, load-some}
use gjworks.Machine.Chain.{Chain, find?}
use gjworks.Mailbox.State.{mailbox_link, node_link, Node, Mailbox}
use gjworks.Mailbox.Lookup.{scan_senders, is_valid_sender}

-- What isValidSender does in a mailbox with these senders: only the first counts, and if another
-- process asks it never returns.
abbrev pub first_sender : List (ℕ × Node) → ℕ → Run Bool
first_sender [] pid = ok false
first_sender ((a, n) ∷ l) pid = if n.pid == pid then ok true else out_of_fuel

scan_senders-eq :
    (nodes : Heap Node) (fuel p pid : ℕ) (l : List (ℕ × Node))
    → Chain nodes p l
    → 0 < fuel
    → scan_senders fuel nodes p pid ≡ first_sender l pid
unfolding scan_senders
scan_senders-eq nodes zero p pid l ch lt = absurd (omega arith)
scan_senders-eq nodes (suc fuel) p pid [] ch lt = ground arith
scan_senders-eq nodes (suc zero) p pid ((a, n) ∷ l) ch lt = ground (arith, load-some nodes p n)
scan_senders-eq nodes (suc (suc fuel)) p pid ((a, n) ∷ l) ch lt = ground (
  arith,
  load-some nodes p n,
  scan_senders-eq nodes (suc fuel) p pid ((a, n) ∷ l) ch (omega arith),
)

-- isValidSender on a mailbox that exists, at every fuel above the number of mailboxes: FALSE with
-- no senders, TRUE for the first sender, and no end at all for every other process.
pub is_valid_sender-eq-first_sender :
    (nodes : Heap Node) (h : Heap Mailbox) (fuel p id pid : ℕ) (l : List (ℕ × Mailbox))
    (b : ℕ × Mailbox) (q : List (ℕ × Node))
    → Chain h p l
    → find? (λ b. b.id == id) l ≡ some b
    → Chain nodes b.1.sender_list q
    → length l < fuel
    → is_valid_sender fuel nodes h p id pid ≡ first_sender q pid
unfolding is_valid_sender
is_valid_sender-eq-first_sender nodes h zero p id pid l b q ch e sch lt = absurd (omega arith)
is_valid_sender-eq-first_sender nodes h (suc fuel) p id pid [] b q ch e sch lt = cc
is_valid_sender-eq-first_sender nodes h (suc fuel) p id pid ((a, c) ∷ l) b q ch e sch lt = ground (
  arith,
  load-some h p c,
  scan_senders-eq nodes (suc fuel) c.sender_list pid q,
  is_valid_sender-eq-first_sender nodes h fuel c.next id pid l b q ch.4,
)
