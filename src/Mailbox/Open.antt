-- ===== src/Mailbox/Open.antt =====
-- mailbox.c: do_openMailbox.
pub mod Create
pub mod Existing
use gjworks.Common.{ℕ, ◌+◌, ◌%◌, ◌^◌, List, none, some, leb, ◌==◌, if◌then◌else◌}
use gjworks.Machine.{Run, ok, ◌>>=◌, update, load, store, attach, find_last}
use gjworks.Mailbox.State.{
  mailbox_link, Mailbox, Pm, World, Reply, value, error, emailboxfull, emailboxnotfound,
  max_mailbox_count,
}
use gjworks.Mailbox.Lookup.{get_mailbox_by_name, get_mailbox_count, count_mailboxes}
use gjworks.Mailbox.Nodes.{list_append}
use gjworks.Mailbox.Fetch.{fetch_message, Fetched, c_string}

-- `listAppend` on the senders with O_WRONLY, and else on the receivers, of the mailbox at `p`.
unfoldable pub add_process : ℕ → World → ℕ → ℕ → Pm → Run Pm
unfolding load list_append
add_process fuel w p pid s = do
  b ← load s.mailboxes p
  list_append fuel (if w.o_wronly s.m_in.i1 then b.sender_list else b.receiver_list) pid s

-- The mailbox is open already: the process is added, and the id returned.
unfoldable pub join_mailbox : ℕ → World → ℕ → ℕ → Pm → Run (Reply × Pm)
unfolding add_process
join_mailbox fuel w p pid s = do
  s' ← add_process fuel w p pid s
  b ← load s'.mailboxes p
  ok (value b.id, s')

-- The end of the creating branch: the fields of the new mailbox at `a`.
unfoldable pub fill_mailbox : ℕ → World → ℕ → List ℕ → ℕ → Pm → Run (Reply × Pm)
unfolding load store add_process list_append
fill_mailbox fuel w a name pid s = do
  b ← load s.mailboxes a
  mailboxes ← store s.mailboxes a (record b { next = 0; name = name })
  s₁ ← list_append fuel b.owner pid (record s { mailboxes = mailboxes })
  s₂ ← add_process fuel w a pid s₁
  c ← load s₂.mailboxes a
  mailboxes' ← store s₂.mailboxes a (record c { id = s₂.g_last_mailbox_id })
  ok (
    value s₂.g_last_mailbox_id,
    record s₂ { mailboxes = mailboxes'; g_last_mailbox_id = (s₂.g_last_mailbox_id + 1) % 2 ^ 32 },
  )

-- The branch of O_CREAT.
unfoldable pub create_mailbox : ℕ → World → List ℕ → ℕ → Pm → Run (Reply × Pm)
unfolding fill_mailbox join_mailbox get_mailbox_count get_mailbox_by_name attach
create_mailbox fuel w name pid s =
    let a = s.fresh in
    if s.g_mailbox == 0
    then fill_mailbox fuel w a name pid (record s {
      mailboxes = update s.mailboxes a (some (w.junk_mailbox a));
      g_mailbox = a;
      fresh = a + 1;
    })
    else do
      count ← get_mailbox_count fuel s.mailboxes s.g_mailbox
      let add = do
        tmp ← get_mailbox_by_name fuel s.mailboxes s.g_mailbox name
        let grow = do
          mailboxes ← attach fuel s.mailboxes s.g_mailbox a (w.junk_mailbox a)
          fill_mailbox fuel w a name pid (record s { mailboxes = mailboxes; fresh = a + 1 })
        if tmp == 0 then grow else join_mailbox fuel w tmp pid s
      if leb max_mailbox_count count
          then ok (error, record s { err_code = some emailboxfull })
          else add

-- do_openMailbox from the test of the flags on.
unfoldable pub open_named : ℕ → World → List ℕ → Pm → Run (Reply × Pm)
unfolding create_mailbox
open_named fuel w name s =
    let pid = w.mp_pid s.who_p in
    if w.o_creat s.m_in.i1 then create_mailbox fuel w name pid s else do
      tmp ← get_mailbox_by_name fuel s.mailboxes s.g_mailbox name
      if tmp == 0
          then ok (error, record s { err_code = some emailboxnotfound })
          else join_mailbox fuel w tmp pid s

-- `_mailboxName` is an array of the stack; the result of fetchMessage is not looked at.
unfoldable pub do_open_mailbox : ℕ → World → Pm → Run (Reply × Pm)
do_open_mailbox fuel w s = do
  f ← fetch_message w s.m_in.i3 s.m_in.i2 w.junk_name s
  name ← c_string f.dest
  open_named fuel w name f.state
