-- ===== src/Mailbox/Deposit.antt =====
-- mailbox.c: do_depositMessage.
pub mod Entry
pub mod Filled
pub mod Full
pub mod Receivers
pub mod Room
use gjworks.Common.{
  ℕ, zero, suc, ◌+◌, Bool, true, false, not, List, [], ◌∷◌, Option, none, some, ltb, ◌==◌,
  if◌then◌else◌,
}
use gjworks.Machine.{
  Run, ok, fault, out_of_fuel, ◌>>=◌, Heap, update, load, store, free, attach, find_last,
}
use gjworks.Mailbox.State.{
  node_link, message_link, Node, Message, Mailbox, Call, Pm, World, Reply, egeneric, suspend,
  unspecified, einvalidsender, max_message_in_mailbox, max_nodes,
}
use gjworks.Mailbox.Lookup.{is_valid_sender, scan_senders, get_message_count, count_messages}
use gjworks.Mailbox.Nodes.{lone_node}
use gjworks.Mailbox.Fetch.{fetch_message, Fetched, c_string, datacopy, write_array, positive}
use gjworks.Mailbox.Blocked.{
  is_sender_blocked, get_context, delete_sender, delete_sender_loop, save_context, context,
}

-- The text to send: fetched, or that of the context, which also brings back its call.
unfoldable pub incoming : ℕ → World → Pm → Run (List ℕ × Pm)
incoming fuel w s = do
  waiting ← is_sender_blocked fuel s.blocked s.g_blocked_senders s.who_p
  let fetch = do
    f ← fetch_message w s.m_in.i3 s.m_in.i2 w.junk_text s
    text ← c_string f.dest
    ok (text, f.state)
  let resume = do
    kept ← get_context fuel s.blocked s.g_blocked_senders s.who_p
    (found, blocked) ← delete_sender fuel s.blocked s.g_blocked_senders s.who_p
    elim kept [
      | none ↦ c_string w.junk_text >>= λ text. ok (text, record s { blocked = blocked })
      | some (call, text) ↦ ok (text, record s { blocked = blocked; m_in = call })
    ]
  if waiting then resume else fetch

-- The `for` over `_rcvList`: `left` rounds, at `_receiver`, for the message at `m`.
unfoldable pub add_receivers : ℕ → List ℕ → ℕ → ℕ → Pm → Run Pm
add_receivers zero pids receiver m s = ok s
add_receivers (suc left) [] receiver m s = fault
add_receivers (suc left) (pid ∷ pids) receiver m s =
    let a = s.fresh in
    let s₁ = record s { nodes = update s.nodes a (some (lone_node pid)); fresh = a + 1 } in
    let first = do
      msg ← load s₁.messages m
      messages ← store s₁.messages m (record msg { receiver_list = a })
      add_receivers left pids a m (record s₁ { messages = messages })
    in let behind = do
      n ← load s.nodes receiver
      nodes ← store s₁.nodes receiver (record n { next = a })
      add_receivers left pids a m (record s₁ { nodes = nodes })
      in if not (positive pid) then ok s else if receiver == 0 then first else behind

-- The new message, at `m`: its text, its sender, its receivers, and the end of the list.
unfoldable pub fill_message : ℕ → List ℕ → ℕ → List ℕ → Pm → Run Pm
fill_message m text pid receivers s = do
  msg ← load s.messages m
  messages ← store s.messages m (record msg { text = text; sender = pid })
  s₁ ← add_receivers max_nodes receivers msg.receiver_list m (record s { messages = messages })
  msg' ← load s₁.messages m
  messages' ← store s₁.messages m (record msg' { next = 0 })
  ok (record s₁ { messages = messages' })

-- A mailbox with room: the message is put at the end of its list.
unfoldable pub enqueue : ℕ → World → ℕ → List ℕ → ℕ → List ℕ → Pm → Run Pm
enqueue fuel w p text pid receivers s = do
  b ← load s.mailboxes p
  let m = s.fresh
  let junk = w.junk_message m
  let first = do
    mailboxes ← store s.mailboxes p (record b { message_list = m })
    fill_message m text pid receivers (record s {
      mailboxes = mailboxes;
      messages = update s.messages m (some junk);
      fresh = m + 1;
    })
  let behind = do
    messages ← attach fuel s.messages b.message_list m junk
    fill_message m text pid receivers (record s { messages = messages; fresh = m + 1 })
  if b.message_list == 0 then first else behind

-- The `while` over the mailboxes: it stays at the first one.
unfoldable pub deposit_loop : ℕ → World → ℕ → ℕ → List ℕ → ℕ → List ℕ → Pm → Run (Reply × Pm)
deposit_loop zero w p mailbox_id text pid receivers s = out_of_fuel
deposit_loop (suc fuel) w p mailbox_id text pid receivers s =
    if p == 0 then ok (unspecified, s) else do
      b ← load s.mailboxes p
      let again = deposit_loop fuel w p mailbox_id text pid receivers s
      let deposit = do
        count ← get_message_count (suc fuel) s.messages s.mailboxes s.g_mailbox mailbox_id
        let put = enqueue (suc fuel) w p text pid receivers s >>= λ s'. ok (unspecified, s')
        let wait = do
          s' ← save_context (suc fuel) w s.m_in s.who_p text s
          ok (
            suspend,
            record s' { sigsuspended = λ q. if q == s.who_p then true else s.sigsuspended q },
          )
        if ltb count max_message_in_mailbox then put else wait
      if b.id == mailbox_id then deposit else again

-- do_depositMessage once it has the text.
unfoldable pub deposit_text : ℕ → World → ℕ → List ℕ → Pm → Run (Reply × Pm)
deposit_text fuel w mailbox_id text s = do
  let pid = w.mp_pid s.who_p
  valid ← is_valid_sender fuel s.nodes s.mailboxes s.g_mailbox mailbox_id pid
  let go = do
    (retval, receivers) ←
        datacopy w.junk_receivers (w.copy_ints s.who_e s.m_in.p2 s.m_in.i3) w.copy_error
    deposit_loop fuel w s.g_mailbox mailbox_id text pid receivers s
  if valid then go else ok (egeneric, record s { err_code = some einvalidsender })

-- The mailbox id is read before the context brings back its call.
unfoldable pub do_deposit_message : ℕ → World → Pm → Run (Reply × Pm)
do_deposit_message fuel w s = do
  (text, s') ← incoming fuel w s
  deposit_text fuel w s.m_in.i1 text s'
