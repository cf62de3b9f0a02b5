-- ===== src/Mailbox/Close.antt =====
-- mailbox.c: do_closeMailbox.
use gjworks.Common.{ℕ, ◌≡◌, ◌≢◌, inl, inr, none, some, arith, ◌==◌, if◌then◌else◌}
use gjworks.Machine.{Run, ok, fault, ◌>>=◌, load, load-some, load-null, store, Heap, Run-cases}
use gjworks.Mailbox.State.{
  mailbox_link, Node, Mailbox, Pm, World, Reply, value, error, emailboxnotfound,
}
use gjworks.Mailbox.Lookup.{get_mailbox}
use gjworks.Mailbox.Nodes.{remove_process, update_mailbox, remove_owner, delete_process}
use gjworks.Mailbox.Nodes.Delete.{delete_process_null}

unfoldable pub do_close_mailbox : ℕ → World → Pm → Run (Reply × Pm)
do_close_mailbox fuel w s = do
  p ← get_mailbox fuel s.mailboxes s.g_mailbox s.m_in.i1
  let close = do
    s₁ ← remove_process fuel p (w.mp_pid s.who_p) s
    (retval, s₂) ← update_mailbox p s₁
    ok (value 0, s₂)
  if p == 0 then ok (error, record s { err_code = some emailboxnotfound }) else close

delete_process_inhabited :
    (fuel : ℕ) (nodes : Heap Node) (head pid : ℕ) (nodes' : Heap Node)
    → delete_process fuel nodes head pid ≡ ok nodes'
    → head ≢ 0
unfolding delete_process
delete_process_inhabited fuel nodes head pid nodes' e = ground (arith, load-null nodes head)

-- What a removeProcess that returns leaves: both lists of the mailbox are pointers other than NULL,
-- and no mailbox has gone.
record Removed (p : ℕ) (s s' : Pm) : Type 0 where
  mailbox : Mailbox
  there : load s'.mailboxes p ≡ ok mailbox
  receivers : mailbox.receiver_list ≢ 0
  senders : mailbox.sender_list ≢ 0
  kept : (q : ℕ) → s'.mailboxes q ≡ none → s.mailboxes q ≡ none

remove_owner_kept :
    (p pid : ℕ) (s s' : Pm)
    → remove_owner p pid s ≡ ok s'
    → (q : ℕ) → s'.mailboxes q ≡ none
    → s.mailboxes q ≡ none
unfolding remove_owner store
remove_owner_kept p pid s s' e q gone = ground arith

remove_process-Removed :
    (fuel p pid : ℕ) (s s' : Pm) → remove_process fuel p pid s ≡ ok s' → Removed p s s'
unfolding remove_process
remove_process-Removed fuel p pid s s' e = elim (Run-cases (remove_owner p pid s)) [
  | inr failed ↦ absurd (ground arith)
  | inl (s₁, left) ↦ elim (Run-cases (load s₁.mailboxes p)) [
    | inr failed ↦ absurd (ground arith)
    | inl (b, at) ↦ elim (Run-cases (delete_process fuel s₁.nodes b.receiver_list pid)) [
      | inr failed ↦ absurd (ground arith)
      | inl (nodes, one) ↦ elim (Run-cases (delete_process fuel nodes b.sender_list pid)) [
        | inr failed ↦ absurd (ground arith)
        | inl (nodes', two) ↦ record {
          mailbox = b;
          there = ground arith;
          receivers = delete_process_inhabited fuel s₁.nodes b.receiver_list pid nodes one;
          senders = delete_process_inhabited fuel nodes b.sender_list pid nodes' two;
          kept = λ q gone. remove_owner_kept p pid s s₁ left q (ground arith);
        }
      ]
    ]
  ]
]

-- A closeMailbox that returns, with whatever result, frees no mailbox: every mailbox of the list is
-- still there, also one that its last process has closed.
pub close_keeps_mailboxes :
    (fuel : ℕ) (w : World) (s : Pm) (r : Reply) (s' : Pm)
    → do_close_mailbox fuel w s ≡ ok (r, s')
    → (q : ℕ) → s.mailboxes q ≢ none
    → s'.mailboxes q ≢ none
unfolding do_close_mailbox update_mailbox
close_keeps_mailboxes fuel w s r s' e q there gone =
    elim (Run-cases (get_mailbox fuel s.mailboxes s.g_mailbox s.m_in.i1)) [
      | inr failed ↦ ground arith
      | inl (p, found) ↦ elim (Run-cases (remove_process fuel p (w.mp_pid s.who_p) s)) [
        | inr failed ↦ ground arith
        | inl (s₁, removed) ↦
            let d = remove_process-Removed fuel p (w.mp_pid s.who_p) s s₁ removed in
            ground (arith, d.there, d.receivers, d.senders, d.kept q)
      ]
    ]

-- Closing a mailbox as openMailbox creates it, with no owner and no receiver, is undefined.
pub close_blank :
    (fuel : ℕ) (w : World) (s : Pm) (p : ℕ) (b : Mailbox)
    → get_mailbox fuel s.mailboxes s.g_mailbox s.m_in.i1 ≡ ok p
    → p ≢ 0
    → s.mailboxes p ≡ some b
    → b.owner ≡ 0
    → b.receiver_list ≡ 0
    → do_close_mailbox fuel w s ≡ fault
unfolding do_close_mailbox remove_process remove_owner
close_blank fuel w s p b found nz at ownerless empty =
    ground (arith, load-some s.mailboxes p b, delete_process_null s.nodes fuel (w.mp_pid s.who_p))
