-- ===== src/Mailbox/Tests/Nodes.antt =====
-- The theorems on the lists of processes and contexts at the sample state.
use gjworks.Common.{ℕ, ◌≡◌, refl, true, some, List, [], ◌∷◌, arith, length, ◌+◌}
use gjworks.Machine.{ok, Heap}
use gjworks.Machine.Chain.{Chain}
use gjworks.Mailbox.State.{node_link, blocked_link, Node, BlockedSender}
use gjworks.Mailbox.Nodes.{delete_process}
use gjworks.Mailbox.Nodes.Append.{pids}
use gjworks.Mailbox.Nodes.Delete.{delete_process-pids}
use gjworks.Mailbox.Blocked.{save_context, get_context, is_sender_blocked}
use gjworks.Mailbox.Blocked.Context.{save_context-get_context}
use gjworks.Mailbox.Tests.{sample, world, node, call, contexts, senders-Chain, contexts-Chain}

delete_process-pids_example :
    (nodes' : Heap Node) × (l' : List (ℕ × Node)) × (delete_process 5 sample.nodes 1 12 ≡ ok nodes')
    × Chain nodes' 1 l'
    × (pids l' ≡ 11 ∷ [])
delete_process-pids_example =
    delete_process-pids sample.nodes 5 1 12 (1, node 11 2) ((2, node 12 0) ∷ []) senders-Chain
      (omega arith) (omega arith)

save_context-get_context_example :
    (h : Heap BlockedSender) × (g : ℕ) × (l' : List (ℕ × BlockedSender)) × (save_context 5 world
        (call 0 3)
        8
        (b'x' ∷ [])
        sample
      ≡ ok (record sample { blocked = h; g_blocked_senders = g; fresh = 50 + 1 }))
    × Chain h g l'
    × (length l' ≡ 3)
    × (is_sender_blocked 5 h g 8 ≡ ok true)
    × (get_context 5 h g 8 ≡ ok (some (call 0 3, b'x' ∷ [])))
save_context-get_context_example =
    save_context-get_context 5 world (call 0 3) 8 (b'x' ∷ []) sample contexts contexts-Chain
      (omega arith) (omega arith) (omega arith) refl
