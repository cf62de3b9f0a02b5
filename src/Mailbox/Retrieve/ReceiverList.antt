-- ===== src/Mailbox/Retrieve/ReceiverList.antt =====
-- do_getReceiverList, and the refusals of do_retrieveMessage.
use gjworks.Common.{
  ℕ, zero, suc, ◌+◌, ◌<◌, ◌≡◌, ◌≢◌, false, some, List, [], ◌∷◌, arith, length, length-set, set,
  ◌==◌,
}
use gjworks.Machine.{ok, fault, Heap, load-some}
use gjworks.Machine.Chain.{Chain, find?}
use gjworks.Mailbox.State.{mailbox_link, node_link, Node, Mailbox, Pm, World, error, eperm}
use gjworks.Mailbox.Lookup.{get_mailbox}
use gjworks.Mailbox.Lookup.Laws.{has_pid, validate_receiver-eq-has_pid}
use gjworks.Mailbox.Retrieve.{
  collect_receivers, receivers_of, do_get_receiver_list, do_retrieve_message,
}

collect_receivers-fault :
    (nodes : Heap Node) (r : ℕ) (n : Node) (fuel : ℕ) (array : List ℕ) (count : ℕ)
    → r ≢ 0
    → nodes r ≡ some n
    → length array < fuel + count
    → 0 < fuel
    → collect_receivers fuel nodes r array count ≡ fault
unfolding collect_receivers
collect_receivers-fault nodes r n zero array count nz at lt pos = absurd (omega arith)
collect_receivers-fault nodes r n (suc fuel) array count nz at lt pos = ground (
  arith,
  load-some nodes r n,
  length-set array count n.pid,
  collect_receivers-fault nodes r n fuel (set array count n.pid) (count + 1) nz at,
)

receivers_of-fault :
    (nodes : Heap Node) (h : Heap Mailbox) (fuel p id : ℕ) (l : List (ℕ × Mailbox))
    (b : ℕ × Mailbox) (x : ℕ × Node) (q : List (ℕ × Node)) (array : List ℕ)
    → Chain h p l
    → find? (λ b. b.id == id) l ≡ some b
    → Chain nodes b.1.receiver_list (x ∷ q)
    → length l + length array < fuel
    → receivers_of fuel nodes h p id array ≡ fault
unfolding receivers_of
receivers_of-fault nodes h zero p id l b x q array ch e rch lt = absurd (omega arith)
receivers_of-fault nodes h (suc fuel) p id [] b x q array ch e rch lt = cc
receivers_of-fault nodes h (suc fuel) p id ((a, c) ∷ l) b x q array ch e rch lt = ground (
  arith,
  load-some h p c,
  rch.0,
  collect_receivers-fault nodes c.receiver_list x.1 (suc fuel) array 0,
  receivers_of-fault nodes h fuel c.next id l b x q array ch.4,
)

-- do_getReceiverList on a mailbox with a receiver never returns: its loop stays at the first
-- receiver and writes past the end of the array.
pub get_receiver_list_overruns :
    (fuel : ℕ) (w : World) (s : Pm) (l : List (ℕ × Mailbox)) (b : ℕ × Mailbox) (x : ℕ × Node)
    (q : List (ℕ × Node))
    → Chain s.mailboxes s.g_mailbox l
    → find? (λ b. b.id == s.m_in.i1) l ≡ some b
    → Chain s.nodes b.1.receiver_list (x ∷ q)
    → length l + length w.junk_list < fuel
    → do_get_receiver_list fuel w s ≡ fault
unfolding do_get_receiver_list
get_receiver_list_overruns fuel w s l b x q ch e rch lt = rw (
    receivers_of-fault s.nodes s.mailboxes fuel s.g_mailbox s.m_in.i1 l b x q w.junk_list ch e rch
      lt)

-- do_retrieveMessage of a process that is not among the receivers of the mailbox is refused with
-- EPERM, and only `err_code` changes.
pub retrieve_refused :
    (fuel : ℕ) (w : World) (s : Pm) (p : ℕ) (b : Mailbox) (l : List (ℕ × Node))
    → get_mailbox fuel s.mailboxes s.g_mailbox s.m_in.i1 ≡ ok p
    → p ≢ 0
    → s.mailboxes p ≡ some b
    → Chain s.nodes b.receiver_list l
    → length l < fuel
    → has_pid (w.mp_pid s.who_p) l ≡ false
    → do_retrieve_message fuel w s ≡ ok (error, record s { err_code = some eperm })
unfolding do_retrieve_message
retrieve_refused fuel w s p b l found nz at ch lt stranger = ground (
  arith,
  load-some s.mailboxes p b,
  validate_receiver-eq-has_pid s.nodes fuel b.receiver_list (w.mp_pid s.who_p) l ch lt,
)
