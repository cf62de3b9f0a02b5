-- ===== src/Mailbox/Nodes.antt =====
-- mailbox.c: makeNode, listAppend, deleteProcess, removeProcess and updateMailbox.
pub mod Append
pub mod Delete
use gjworks.Common.{ℕ, zero, suc, ◌+◌, Bool, ◌&&◌, some, none, ◌==◌, if◌then◌else◌}
use gjworks.Machine.{
  Run, ok, out_of_fuel, ◌>>=◌, Heap, update, load, store, free, attach, find_last,
}
use gjworks.Mailbox.State.{node_link, Node, Mailbox, Pm, Reply, value, error}

abbrev pub lone_node : ℕ → Node
lone_node pid = record { pid = pid; next = 0 }

-- `makeNode`: the address of the new node, and the state.
unfoldable pub make_node : ℕ → Pm → ℕ × Pm
make_node pid s = (
  s.fresh,
  record s { nodes = update s.nodes s.fresh (some (lone_node pid)); fresh = s.fresh + 1 },
)

-- `listAppend`: with NULL only the parameter is assigned, so the new node is lost.
unfoldable pub list_append : ℕ → ℕ → ℕ → Pm → Run Pm
unfolding make_node
list_append fuel head pid s =
    if head == 0
    then ok (make_node pid s).1
    else attach fuel s.nodes head s.fresh (lone_node pid) >>= λ nodes.
        ok (record s { nodes = nodes; fresh = s.fresh + 1 })

-- The `else` branch of deleteProcess: the loop, and the unlinking of the node that it stops at.
unfoldable pub delete_loop : ℕ → Heap Node → ℕ → ℕ → Run (Heap Node)
unfolding load store free
delete_loop zero nodes p pid = out_of_fuel
delete_loop (suc fuel) nodes p pid = load nodes p >>= λ n. if n.next == 0 then ok nodes else do
  m ← load nodes n.next
  let rest = delete_loop fuel nodes n.next pid
  let unlink = store nodes p (record n { next = m.next }) >>= λ nodes'. free nodes' n.next
  if m.pid == pid then unlink else rest

-- `deleteProcess`: the head is freed and stays where the caller holds it.
unfoldable pub delete_process : ℕ → Heap Node → ℕ → ℕ → Run (Heap Node)
unfolding delete_loop load free
delete_process fuel nodes head pid = do
  n ← load nodes head
  if n.pid == pid then free nodes head else delete_loop fuel nodes head pid

-- The first part of removeProcess: the owner leaves.
unfoldable pub remove_owner : ℕ → ℕ → Pm → Run Pm
remove_owner p pid s = do
  b ← load s.mailboxes p
  if b.owner == 0 then ok s else do
    n ← load s.nodes b.owner
    let leave = do
      mailboxes ← store s.mailboxes p (record b { owner = 0 })
      nodes ← free s.nodes b.owner
      ok (record s { mailboxes = mailboxes; nodes = nodes })
    if n.pid == pid then leave else ok s

unfoldable pub remove_process : ℕ → ℕ → ℕ → Pm → Run Pm
remove_process fuel p pid s = do
  s' ← remove_owner p pid s
  b ← load s'.mailboxes p
  nodes ← delete_process fuel s'.nodes b.receiver_list pid
  nodes' ← delete_process fuel nodes b.sender_list pid
  ok (record s' { nodes = nodes' })

-- `updateMailbox`: the mailbox is freed with no process left in it, and stays in the list.
unfoldable pub update_mailbox : ℕ → Pm → Run (Reply × Pm)
update_mailbox p s = do
  b ← load s.mailboxes p
  let delete =
      free s.mailboxes p >>= λ mailboxes. ok (value b.id, record s { mailboxes = mailboxes })
  if b.receiver_list == 0 && b.sender_list == 0 then delete else ok (error, s)
