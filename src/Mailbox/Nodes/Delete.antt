-- ===== src/Mailbox/Nodes/Delete.antt =====
-- deleteProcess, as an operation on the list of the processes.
use gjworks.Common.{
  ℕ, zero, suc, ◌<◌, ◌≡◌, ◌≢◌, refl, ◌∙◌, some, none, List, [], ◌∷◌, arith, length, ◌==◌,
  if◌then◌else◌, Bool-cases, inl, inr,
}
use gjworks.Machine.{ok, fault, Heap, update, load-some, load-freed}
use gjworks.Machine.Chain.{Chain, Absent, Chain-update}
use gjworks.Mailbox.State.{node_link, Node}
use gjworks.Mailbox.Lookup.{validate_receiver}
use gjworks.Mailbox.Nodes.{delete_loop, delete_process}
use gjworks.Mailbox.Nodes.Append.{pids}

-- The list without its first `pid`.
abbrev pub erase : ℕ → List ℕ → List ℕ
erase pid [] = []
erase pid (x ∷ l) = if x == pid then l else x ∷ erase pid l

-- A process that is not the first of the list `x ∷ l` is taken out of it: `l'` is the rest of the
-- list afterwards, and no other node is touched.
record Deleted (nodes nodes' : Heap Node) (p pid : ℕ) (x : ℕ × Node) (l : List (ℕ × Node))
    : Type 0 where
  rest : List (ℕ × Node)
  head : Node
  same_pid : head.pid ≡ x.1.pid
  chain : Chain nodes' p ((x.0, head) ∷ rest)
  erased : pids rest ≡ erase pid (pids l)
  inside : (q : ℕ) → Absent q l → Absent q rest
  kept : (q : ℕ) → Absent q (x ∷ l) → nodes' q ≡ nodes q

delete_loop-Deleted :
    (nodes : Heap Node) (fuel p pid : ℕ) (x : ℕ × Node) (l : List (ℕ × Node))
    → Chain nodes p (x ∷ l)
    → length l < fuel
    → (nodes' : Heap Node) × (delete_loop fuel nodes p pid ≡ ok nodes')
      × Deleted nodes nodes' p pid x l
unfolding delete_loop
delete_loop-Deleted nodes zero p pid x l ch lt = absurd (omega arith)
delete_loop-Deleted nodes (suc fuel) p pid (a, n) [] ch lt = (
  nodes,
  ground (arith, load-some nodes p n),
  record {
    rest = [];
    head = n;
    same_pid = refl;
    chain = ch;
    erased = refl;
    inside = λ q h. h;
    kept = λ q h. refl;
  },
)
delete_loop-Deleted nodes (suc fuel) p pid (a, n) ((b, m) ∷ l) ch lt =
    elim (Bool-cases (m.pid == pid)) [
      | inl here ↦ (
        update (update nodes a (some (record n { next = m.next }))) b none,
        ground (arith, load-some nodes p n, load-some nodes n.next m),
        record {
          rest = l;
          head = record n { next = m.next };
          same_pid = refl;
          chain =
              let skip = some (record n { next = m.next }) in
              let ch' = Chain-update nodes m.next l a skip ch.3.1 ch.4.4 in
              (
                ch.0,
                ch.1,
                ground (arith, ch.3.0),
                ch.3.1,
                Chain-update (update nodes a skip) m.next l b none ch.4.3 ch',
              );
          erased = rw here;
          inside = λ q h. h.1;
          kept = λ q h. ground arith;
        },
      )
      | inr there ↦
          let (nodes', run, d) =
            delete_loop-Deleted nodes fuel n.next pid (b, m) l ch.4 (omega arith) in
          (
            nodes',
            ground (arith, load-some nodes p n, load-some nodes n.next m),
            record {
              rest = (b, d.head) ∷ d.rest;
              head = n;
              same_pid = refl;
              chain = (ch.0, ch.1, d.kept a ch.3 ∙ ch.2, (ch.3.0, d.inside a ch.3.1), d.chain);
              erased = ground (arith, d.same_pid, d.erased);
              inside = λ q h. (h.0, d.inside q h.1);
              kept = λ q h. d.kept q h.1;
            },
          )
    ]

-- A process that is in the list, and not first in it, is removed: the list of processes afterwards
-- is the one before without its first occurrence. If it is not in the list, nothing is removed.
pub delete_process-pids :
    (nodes : Heap Node) (fuel p pid : ℕ) (x : ℕ × Node) (l : List (ℕ × Node))
    → Chain nodes p (x ∷ l)
    → length l < fuel
    → x.1.pid ≢ pid
    → (nodes' : Heap Node) × (l' : List (ℕ × Node)) × (delete_process fuel nodes p pid ≡ ok nodes')
      × Chain nodes' p l'
      × (pids l' ≡ erase pid (pids (x ∷ l)))
unfolding delete_process
delete_process-pids nodes fuel p pid (a, n) l ch lt ne =
    let (nodes', run, d) = delete_loop-Deleted nodes fuel p pid (a, n) l ch lt in
    (
      nodes',
      (a, d.head) ∷ d.rest,
      ground (arith, load-some nodes p n),
      d.chain,
      ground (arith, d.same_pid, d.erased),
    )

-- If the process is the first of the list, deleteProcess frees the head where the mailbox still
-- points: the call returns, and the next walk through the list, for any process, is undefined.
pub delete_process_head_dangles :
    (nodes : Heap Node) (fuel p pid : ℕ) (n : Node) (l : List (ℕ × Node))
    → Chain nodes p ((p, n) ∷ l)
    → n.pid ≡ pid
    → (nodes' : Heap Node) × (delete_process fuel nodes p pid ≡ ok nodes')
      × ((k other : ℕ) → validate_receiver (suc k) nodes' p other ≡ fault)
unfolding delete_process validate_receiver
delete_process_head_dangles nodes fuel p pid n l ch e = (
  update nodes p none,
  ground (arith, load-some nodes p n),
  λ k other. ground (arith, load-freed nodes p p),
)

-- deleteProcess on NULL, an access list with no process in it, is undefined.
pub delete_process_null :
    (nodes : Heap Node) (fuel pid : ℕ) → delete_process fuel nodes 0 pid ≡ fault
unfolding delete_process
delete_process_null nodes fuel pid = refl
