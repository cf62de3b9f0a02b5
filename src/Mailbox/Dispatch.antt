-- ===== src/Mailbox/Dispatch.antt =====
-- main.c of the process manager: unblockSystemCalls, which makes the call of a suspended sender again.
use gjworks.Common.{
  ℕ, zero, suc, false, Option, none, some, List, [], ◌∷◌, ◌≡◌, ◌<◌, arith, length, ◌==◌,
  if◌then◌else◌,
}
use gjworks.Machine.{Run, ok, out_of_fuel, ◌>>=◌, Heap, load, store, update, load-some, store-some}
use gjworks.Machine.Chain.{Chain, find?}
use gjworks.Mailbox.State.{blocked_link, BlockedSender, Pm, World, Reply, suspend}
use gjworks.Mailbox.Deposit.{do_deposit_message}

-- The loop: the first context that is marked, which it unmarks; NULL if there is none.
unfoldable pub next_unblocked : ℕ → Heap BlockedSender → ℕ → Run (ℕ × Heap BlockedSender)
next_unblocked zero h p = out_of_fuel
next_unblocked (suc fuel) h p = if p == 0 then ok (0, h) else do
  b ← load h p
  let rest = next_unblocked fuel h b.next
  let found = store h p (record b { unblocked = false }) >>= λ h'. ok (p, h')
  if b.unblocked then found else rest

-- The reply that `setreply` gets, for the process slot: none after SUSPEND.
abbrev pub reply_to : ℕ → Reply → Option (ℕ × Reply)
reply_to who suspend = none
reply_to who result = some (who, result)

-- `mp_flags != UNPAUSED` compares and changes nothing.
unfoldable pub unblock_system_calls : ℕ → World → Pm → Run (Option (ℕ × Reply) × Pm)
unblock_system_calls fuel w s = do
  (p, h) ← next_unblocked fuel s.blocked s.g_blocked_senders
  let resume = do
    b ← load h p
    (result, s') ← do_deposit_message fuel w (record s { blocked = h; who_p = b.who_p })
    ok (reply_to b.who_p result, s')
  if p == 0 then ok (none, record s { blocked = h }) else resume

abbrev pub unmarked : Heap BlockedSender → Option (ℕ × BlockedSender) → ℕ × Heap BlockedSender
unmarked h none = (0, h)
unmarked h (some (a, b)) = (a, update h a (some (record b { unblocked = false })))

-- The loop returns the address of the first marked context and unmarks that one alone; with none
-- marked it returns NULL and changes nothing.
pub next_unblocked-eq-unmarked :
    (fuel : ℕ) (h : Heap BlockedSender) (p : ℕ) (l : List (ℕ × BlockedSender))
    → Chain h p l
    → length l < fuel
    → next_unblocked fuel h p ≡ ok (unmarked h (find? (λ b. b.unblocked) l))
unfolding next_unblocked
next_unblocked-eq-unmarked zero h p l ch lt = absurd (omega arith)
next_unblocked-eq-unmarked (suc fuel) h p [] ch lt = ground arith
next_unblocked-eq-unmarked (suc fuel) h p ((a, b) ∷ l) ch lt = ground (
  arith,
  ch.0,
  load-some h p b,
  store-some h p b (record b { unblocked = false }),
  next_unblocked-eq-unmarked fuel h b.next l ch.4 (omega arith),
)
