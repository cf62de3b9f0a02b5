-- ===== src/Mailbox/Nodes/Append.antt =====
-- listAppend, as an operation on the list of the processes.
use gjworks.Common.{ℕ, ◌<◌, ◌≡◌, ◌≢◌, refl, ap, some, List, [], ◌∷◌, ◌++◌, arith, length, ◌+◌}
use gjworks.Machine.{ok, Heap}
use gjworks.Machine.Chain.{Chain, Absent, snoc, attach-Attached, Attached-Chain, Chain-update}
use gjworks.Mailbox.State.{node_link, Node, Pm}
use gjworks.Mailbox.Nodes.{lone_node, list_append, make_node}

-- The processes of a list of nodes, in order.
abbrev pub pids : List (ℕ × Node) → List ℕ
pids [] = []
pids ((a, n) ∷ l) = n.pid ∷ pids l

pids-snoc : (l : List (ℕ × Node)) (a : ℕ) (n : Node) → pids (snoc l a n) ≡ pids l ++ n.pid ∷ []
unfolding snoc
pids-snoc [] a n = refl
pids-snoc ((b, m) ∷ []) a n = refl
pids-snoc ((b, m) ∷ y ∷ l) a n = ap (◌∷◌ m.pid) (pids-snoc (y ∷ l) a n)

-- On a list that is not empty, listAppend adds the process at the end, and of the state it changes
-- only the nodes and the next address of `malloc`.
pub list_append-pids :
    (fuel head pid : ℕ) (s : Pm) (x : ℕ × Node) (l : List (ℕ × Node))
    → Chain s.nodes head (x ∷ l)
    → length l < fuel
    → s.fresh ≢ 0
    → Absent s.fresh (x ∷ l)
    → (nodes : Heap Node) × (l' : List (ℕ × Node)) × (list_append fuel head pid s
        ≡ ok (record s { nodes = nodes; fresh = s.fresh + 1 }))
      × Chain nodes head l'
      × (pids l' ≡ pids (x ∷ l) ++ pid ∷ [])
unfolding list_append
list_append-pids fuel head pid s x l ch lt nz away =
    let (nodes, run, at) =
      attach-Attached fuel s.nodes head x l s.fresh (lone_node pid) ch lt away in
    (
      nodes,
      snoc (x ∷ l) s.fresh (lone_node pid),
      ground (arith, ch.0, ch.1),
      Attached-Chain s.nodes nodes head x l s.fresh (lone_node pid) ch nz away refl at,
      pids-snoc (x ∷ l) s.fresh (lone_node pid),
    )

-- With NULL for the list, listAppend allocates a node and leaves every list as it is: the process
-- is added to none.
pub list_append-null :
    (fuel pid : ℕ) (s : Pm) (p : ℕ) (l : List (ℕ × Node))
    → Absent s.fresh l
    → Chain s.nodes p l
    → (s' : Pm) × (list_append fuel 0 pid s ≡ ok s') × Chain s'.nodes p l
unfolding list_append make_node
list_append-null fuel pid s p l away ch =
    ((make_node pid s).1, refl, Chain-update s.nodes p l s.fresh (some (lone_node pid)) away ch)
