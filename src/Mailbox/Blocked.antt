-- ===== src/Mailbox/Blocked.antt =====
-- mailbox.c: the senders that wait for room in a mailbox (saveContext, getContext, isSenderBlocked,
-- unblockSender, deleteSender, isAnySenderUnblocked).
pub mod Context
pub mod Unblock
use gjworks.Common.{
  ℕ, zero, suc, ◌+◌, Bool, true, false, List, Option, none, some, ◌==◌, if◌then◌else◌,
}
use gjworks.Machine.{
  Run, ok, out_of_fuel, ◌>>=◌, Heap, update, load, store, free, attach, find_last,
}
use gjworks.Mailbox.State.{blocked_link, BlockedSender, Call, Pm, World}

-- What saveContext writes into a new struct; its `_pid` stays what `malloc` left there.
unfoldable pub context : World → ℕ → Call → ℕ → List ℕ → BlockedSender
context w a call who msg = record (w.junk_blocked a) {
  mailbox_id = call.i1;
  who_p = who;
  msg = msg;
  message_sender = call;
  unblocked = false;
  next = 0;
}

unfoldable pub save_context : ℕ → World → Call → ℕ → List ℕ → Pm → Run Pm
unfolding context
save_context fuel w call who msg s =
    let a = s.fresh in
    let d = context w a call who msg in
    if s.g_blocked_senders == 0
    then ok
        (record s { blocked = update s.blocked a (some d); g_blocked_senders = a; fresh = a + 1 })
    else attach fuel s.blocked s.g_blocked_senders a d >>= λ blocked.
        ok (record s { blocked = blocked; fresh = a + 1 })

-- `none` is FALSE; otherwise the saved call, and the text of the message.
unfoldable pub get_context : ℕ → Heap BlockedSender → ℕ → ℕ → Run (Option (Call × List ℕ))
get_context zero h p who = out_of_fuel
get_context (suc fuel) h p who = if p == 0 then ok none else do
  b ← load h p
  let rest = get_context fuel h b.next who
  if b.who_p == who then ok (some (b.message_sender, b.msg)) else rest

unfoldable pub is_sender_blocked : ℕ → Heap BlockedSender → ℕ → ℕ → Run Bool
is_sender_blocked zero h p who = out_of_fuel
is_sender_blocked (suc fuel) h p who = if p == 0 then ok false else do
  b ← load h p
  let rest = is_sender_blocked fuel h b.next who
  if b.who_p == who then ok true else rest

unfoldable pub is_any_sender_unblocked : ℕ → Heap BlockedSender → ℕ → Run Bool
is_any_sender_unblocked zero h p = out_of_fuel
is_any_sender_unblocked (suc fuel) h p = if p == 0 then ok false else do
  b ← load h p
  let rest = is_any_sender_unblocked fuel h b.next
  if b.unblocked then ok true else rest

unfoldable pub unblock_sender : ℕ → Heap BlockedSender → ℕ → ℕ → Run (Heap BlockedSender)
unfolding load store
unblock_sender zero h p mailbox_id = out_of_fuel
unblock_sender (suc fuel) h p mailbox_id = if p == 0 then ok h else do
  b ← load h p
  h' ← if b.mailbox_id == mailbox_id then store h p (record b { unblocked = true }) else ok h
  unblock_sender fuel h' b.next mailbox_id

-- The loop of the `else` branch of deleteSender, and the unlinking.
unfoldable pub delete_sender_loop : ℕ → Heap BlockedSender → ℕ → ℕ → Run (Bool × Heap BlockedSender)
unfolding load store free
delete_sender_loop zero h p who = out_of_fuel
delete_sender_loop (suc fuel) h p who = load h p >>= λ b. if b.next == 0 then ok (false, h) else do
  c ← load h b.next
  let rest = delete_sender_loop fuel h b.next who
  let unlink = do h' ← store h p (record b { next = c.next }); h'' ← free h' b.next; ok (true, h'')
  if c.who_p == who then unlink else rest

-- `deleteSender`: the head is freed, and `g_blockedSenders` still points to it.
unfoldable pub delete_sender : ℕ → Heap BlockedSender → ℕ → ℕ → Run (Bool × Heap BlockedSender)
unfolding delete_sender_loop load free
delete_sender fuel h g who = if g == 0 then ok (false, h) else do
  b ← load h g
  let head = free h g >>= λ h'. ok (true, h')
  if b.who_p == who then head else delete_sender_loop fuel h g who
