-- ===== src/Mailbox/Lookup.antt =====
-- mailbox.c: getMailboxByName, getMailboxCount, isValidSender, getMessageCount, getMailbox and
-- validateReceiver. Each loop takes fuel; `p` is the pointer that it moves.
pub mod Laws
pub mod Senders
use gjworks.Common.{ℕ, zero, suc, ◌+◌, Bool, true, false, List, ◌==◌, if◌then◌else◌, str_eq}
use gjworks.Machine.{Run, ok, out_of_fuel, ◌>>=◌, Heap, load}
use gjworks.Mailbox.State.{Node, Message, Mailbox}

unfoldable pub get_mailbox_by_name : ℕ → Heap Mailbox → ℕ → List ℕ → Run ℕ
get_mailbox_by_name zero h p name = out_of_fuel
get_mailbox_by_name (suc fuel) h p name = if p == 0 then ok 0 else do
  b ← load h p
  let rest = get_mailbox_by_name fuel h b.next name
  if str_eq b.name name then ok p else rest

-- The loop of getMailboxCount, with its count.
unfoldable pub count_mailboxes : ℕ → Heap Mailbox → ℕ → ℕ → Run ℕ
count_mailboxes zero h p count = out_of_fuel
count_mailboxes (suc fuel) h p count =
    if p == 0 then ok count else load h p >>= λ b. count_mailboxes fuel h b.next (count + 1)

unfoldable pub get_mailbox_count : ℕ → Heap Mailbox → ℕ → Run ℕ
unfolding count_mailboxes
get_mailbox_count fuel h g_mailbox = count_mailboxes fuel h g_mailbox 0

-- The inner loop of isValidSender: it stays at the same node.
unfoldable pub scan_senders : ℕ → Heap Node → ℕ → ℕ → Run Bool
scan_senders zero nodes p sender_id = out_of_fuel
scan_senders (suc fuel) nodes p sender_id = if p == 0 then ok false else do
  n ← load nodes p
  let again = scan_senders fuel nodes p sender_id
  if n.pid == sender_id then ok true else again

unfoldable pub is_valid_sender : ℕ → Heap Node → Heap Mailbox → ℕ → ℕ → ℕ → Run Bool
is_valid_sender zero nodes h p mailbox_id sender_id = out_of_fuel
is_valid_sender (suc fuel) nodes h p mailbox_id sender_id = if p == 0 then ok false else do
  b ← load h p
  let rest = is_valid_sender fuel nodes h b.next mailbox_id sender_id
  if b.id == mailbox_id then scan_senders (suc fuel) nodes b.sender_list sender_id else rest

unfoldable pub count_messages : ℕ → Heap Message → ℕ → ℕ → Run ℕ
count_messages zero h p count = out_of_fuel
count_messages (suc fuel) h p count =
    if p == 0 then ok count else load h p >>= λ m. count_messages fuel h m.next (count + 1)

unfoldable pub get_message_count : ℕ → Heap Message → Heap Mailbox → ℕ → ℕ → Run ℕ
unfolding count_messages
get_message_count zero messages h p mailbox_id = out_of_fuel
get_message_count (suc fuel) messages h p mailbox_id = if p == 0 then ok 0 else do
  b ← load h p
  let rest = get_message_count fuel messages h b.next mailbox_id
  if b.id == mailbox_id then count_messages (suc fuel) messages b.message_list 0 else rest

-- The `do … while` of getMailbox: it moves on, and then reads the `next` of where it has come to.
unfoldable pub get_mailbox_loop : ℕ → Heap Mailbox → ℕ → ℕ → Run ℕ
get_mailbox_loop zero h p mailbox_id = out_of_fuel
get_mailbox_loop (suc fuel) h p mailbox_id = do
  b ← load h p
  let rest = get_mailbox_loop fuel h b.next mailbox_id
  let move = load h b.next >>= λ c. if c.next == 0 then ok 0 else rest
  if b.id == mailbox_id then ok p else move

unfoldable pub get_mailbox : ℕ → Heap Mailbox → ℕ → ℕ → Run ℕ
unfolding get_mailbox_loop
get_mailbox fuel h g_mailbox mailbox_id =
    if g_mailbox == 0 then ok 0 else get_mailbox_loop fuel h g_mailbox mailbox_id

-- The loop of validateReceiver.
unfoldable pub validate_receiver : ℕ → Heap Node → ℕ → ℕ → Run Bool
validate_receiver zero nodes p pid = out_of_fuel
validate_receiver (suc fuel) nodes p pid = if p == 0 then ok false else do
  n ← load nodes p
  let rest = validate_receiver fuel nodes n.next pid
  if n.pid == pid then ok true else rest
