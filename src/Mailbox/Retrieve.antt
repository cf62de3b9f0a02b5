-- ===== src/Mailbox/Retrieve.antt =====
-- mailbox.c: do_retrieveMessage, retrieveMessage and do_getReceiverList.
pub mod Kept
pub mod Take
pub mod Delivered
pub mod ReceiverList
use gjworks.Common.{
  ℕ, zero, suc, ◌+◌, ◌-◌, Bool, true, false, List, [], ◌∷◌, ◌++◌, Option, none, some, ltb, length,
  set, ◌==◌, if◌then◌else◌,
}
use gjworks.Machine.{Run, ok, fault, out_of_fuel, ◌>>=◌, Heap, update, load, store, free}
use gjworks.Mailbox.State.{
  Node, Message, Mailbox, Pm, World, Reply, value, error, eperm, emailboxnotfound,
  max_message_length, Sent,
}
use gjworks.Mailbox.Lookup.{get_mailbox, validate_receiver}
use gjworks.Mailbox.Blocked.{unblock_sender}

-- The inner loop of retrieveMessage, over the receivers of one message: `none` if the process is not
-- among them, and else the nodes without its node. The first node is freed with no pointer moved.
unfoldable pub take_receiver : ℕ → Heap Node → ℕ → ℕ → ℕ → Run (Option (Heap Node))
take_receiver zero nodes r previous pid = out_of_fuel
take_receiver (suc fuel) nodes r previous pid = if r == 0 then ok none else do
  n ← load nodes r
  let rest = take_receiver fuel nodes n.next r pid
  let first = free nodes r >>= λ nodes'. ok (some nodes')
  let inner = do
    p ← load nodes previous
    nodes' ← store nodes previous (record p { next = n.next })
    nodes'' ← free nodes' r
    ok (some nodes'')
  if n.pid == pid then (if previous == 0 then first else inner) else rest

-- A message with no receivers left is unlinked and freed, and the senders that wait are unblocked.
unfoldable pub drop_message : ℕ → ℕ → ℕ → ℕ → Message → Pm → Run Pm
drop_message fuel mailbox_id m previous msg s =
    let first = free s.messages m in
    let inner = do
      p ← load s.messages previous
      messages ← store s.messages previous (record p { next = msg.next })
      free messages m
    in do
      messages ← if previous == 0 then first else inner
      blocked ← unblock_sender fuel s.blocked s.g_blocked_senders mailbox_id
      ok (record s { messages = messages; blocked = blocked })

-- The branch of retrieveMessage that has found the process: a copy of the text, and the message
-- dropped if it has no receivers.
unfoldable pub deliver_copy : ℕ → World → ℕ → ℕ → ℕ → Message → Heap Node → Pm → Run (ℕ × Pm)
deliver_copy fuel w mailbox_id m previous msg nodes s =
    let a = s.fresh in
    let s₁ = record s {
      nodes = nodes;
      messages = update s.messages a (some (record (w.junk_message a) { text = msg.text }));
      fresh = a + 1;
    } in
    let dropped = drop_message fuel mailbox_id m previous msg s₁ >>= λ s₂. ok (a, s₂) in
    if msg.receiver_list == 0 then dropped else ok (a, s₁)

-- The outer loop, at the message `m` behind `previous`; `tmp` is `_tmp`, which starts with whatever
-- the stack holds.
unfoldable pub retrieve_loop : ℕ → World → ℕ → ℕ → ℕ → ℕ → ℕ → Pm → Run (ℕ × Pm)
retrieve_loop zero w mailbox_id pid m previous tmp s = out_of_fuel
retrieve_loop (suc fuel) w mailbox_id pid m previous tmp s = if m == 0 then ok (tmp, s) else do
  msg ← load s.messages m
  found ← take_receiver (suc fuel) s.nodes msg.receiver_list 0 pid
  let rest = retrieve_loop fuel w mailbox_id pid msg.next m tmp s
  elim found [
    | none ↦ if tmp == 0 then rest else ok (tmp, s)
    | some nodes ↦ deliver_copy (suc fuel) w mailbox_id m previous msg nodes s
  ]

unfoldable pub retrieve_message : ℕ → World → ℕ → ℕ → Pm → Run (ℕ × Pm)
retrieve_message fuel w p pid s = do
  b ← load s.mailboxes p
  retrieve_loop fuel w b.id pid b.message_list 0 w.junk_pointer s

-- A string in a zeroed array of `n` bytes.
abbrev pub pad : ℕ → List ℕ → List ℕ
pad zero s = s
pad (suc n) [] = 0 ∷ pad n []
pad (suc n) (x ∷ s) = x ∷ pad n s

unfoldable pub do_retrieve_message : ℕ → World → Pm → Run (Reply × Pm)
do_retrieve_message fuel w s = do
  let pid = w.mp_pid s.who_p
  p ← get_mailbox fuel s.mailboxes s.g_mailbox s.m_in.i1
  let deliver = do
    (a, s') ← retrieve_message fuel w p pid s
    msg ← load s'.messages a
    ok (
      value 0,
      record s' {
        sent =
            record {
              endpoint = s'.m_in.source;
              address = s'.m_in.p1;
              words = pad max_message_length msg.text;
            }
            ∷ s'.sent;
      },
    )
  let go = do
    b ← load s.mailboxes p
    valid ← validate_receiver fuel s.nodes b.receiver_list pid
    if valid then deliver else ok (error, record s { err_code = some eperm })
  if p == 0 then ok (error, record s { err_code = some emailboxnotfound }) else go

-- The inner loop of do_getReceiverList: `_count` grows and `_receiver` stays.
unfoldable pub collect_receivers : ℕ → Heap Node → ℕ → List ℕ → ℕ → Run (List ℕ × ℕ)
collect_receivers zero nodes r array count = out_of_fuel
collect_receivers (suc fuel) nodes r array count = if r == 0 then ok (array, count) else do
  n ← load nodes r
  let again = collect_receivers fuel nodes r (set array count n.pid) (count + 1)
  if ltb count (length array) then again else fault

-- The outer loop, over the mailboxes.
unfoldable pub receivers_of : ℕ → Heap Node → Heap Mailbox → ℕ → ℕ → List ℕ → Run (List ℕ × ℕ)
receivers_of zero nodes h p mailbox_id array = out_of_fuel
receivers_of (suc fuel) nodes h p mailbox_id array = if p == 0 then ok (array, 0) else do
  b ← load h p
  let rest = receivers_of fuel nodes h b.next mailbox_id array
  if b.id == mailbox_id then collect_receivers (suc fuel) nodes b.receiver_list array 0 else rest

unfoldable pub do_get_receiver_list : ℕ → World → Pm → Run (Reply × Pm)
do_get_receiver_list fuel w s = do
  (array, count) ← receivers_of fuel s.nodes s.mailboxes s.g_mailbox s.m_in.i1 w.junk_list
  ok (
    value 0,
    record s {
      sent = record { endpoint = s.m_in.source; address = s.m_in.p2; words = array } ∷ s.sent;
      m_in = record (s.m_in) { i3 = count };
    },
  )
