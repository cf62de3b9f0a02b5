-- ===== src/Shell/Jobs/Ends.antt =====
-- What becomes of background processes that end.
use gjworks.Common.{
  ℕ, zero, suc, ◌<◌, ◌≡◌, refl, sym, subst, ap, ◌∙◌, List, [], ◌∷◌, some, ◌==◌, ==_refl,
  if◌then◌else◌, length, Bool-cases, inl, inr, arith,
}
use gjworks.Machine.{ok, Heap, update, load-some, store-some}
use gjworks.Machine.Chain.{Absent, Chain, last, Chain-update}
use gjworks.Shell.Jobs.{Bgproc, Jobs, bgproc_link, mark_status, child_signal_handler}
use gjworks.Shell.Jobs.Laws.{IsJobs}

-- The list with the status at the first job of that pid.
abbrev pub marked : ℕ → ℕ → List (ℕ × Bgproc) → List (ℕ × Bgproc)
marked pid status [] = []
marked pid status ((a, b) ∷ l) =
    if pid == b.pid then (a, record b { status = status }) ∷ l else (a, b) ∷ marked pid status l

marked-Absent :
    (pid status a : ℕ) (l : List (ℕ × Bgproc)) → Absent a l → Absent a (marked pid status l)
marked-Absent pid status a [] away = tt
marked-Absent pid status a ((c, b) ∷ l) away = elim (Bool-cases (pid == b.pid)) [
  | inl e ↦ rw (e) away
  | inr e ↦ rw (e) (away.0, marked-Absent pid status a l away.1)
]

-- What the loop leaves: the marked list, and every other struct as it was.
record Marked (h H : Heap Bgproc) (p : ℕ) (l m : List (ℕ × Bgproc)) : Type 0 where
  chain : Chain H p m
  kept : (q : ℕ) → Absent q l → H q ≡ h q

mark_status-Marked :
    (fuel : ℕ) (h : Heap Bgproc) (p pid status : ℕ) (l : List (ℕ × Bgproc))
    → Chain h p l
    → length l < fuel
    → (H : Heap Bgproc) × (mark_status fuel h p pid status ≡ ok H)
      × Marked h H p l (marked pid status l)
unfolding mark_status
mark_status-Marked zero h p pid status l ch lt = absurd (omega arith)
mark_status-Marked (suc fuel) h p pid status [] ch lt =
    (h, ground arith, record { chain = ch; kept = λ q away. refl })
mark_status-Marked (suc fuel) h p pid status ((a, b) ∷ l) ch lt = elim (Bool-cases (pid == b.pid)) [
  | inl e ↦ rw (e) (
    update h a (some (record b { status = status })),
    ground (
      arith,
      e,
      ch.0,
      ch.1,
      ch.2,
      load-some h p b,
      store-some h p b (record b { status = status }),
    ),
    record {
      chain = (ch.0, ch.1, ground (arith, ==_refl a), ch.3, Chain-update h b.next l a _ ch.3 ch.4);
      kept = λ q away. ground arith;
    },
  )
  | inr e ↦
      let (H, run, m) = mark_status-Marked fuel h b.next pid status l ch.4 (omega arith) in
      rw (e) (
        H,
        ground (arith, e, ch.0, ch.1, ch.2, load-some h p b, run),
        record {
          chain = (ch.0, ch.1, m.kept a ch.3 ∙ ch.2, marked-Absent pid status a l ch.3, m.chain);
          kept = λ q away. m.kept q away.1;
        },
      )
]

marked-last :
    (pid status : ℕ) (x : ℕ × Bgproc) (l : List (ℕ × Bgproc))
    → (y : ℕ × Bgproc) × (m : List (ℕ × Bgproc)) × (marked pid status (x ∷ l) ≡ y ∷ m)
      × ((last y m).0 ≡ (last x l).0)
unfolding last
marked-last pid status (a, b) [] = elim (Bool-cases (pid == b.pid)) [
  | inl e ↦ rw (e) (_, [], refl, refl)
  | inr e ↦ rw (e) (_, [], refl, refl)
]
marked-last pid status (a, b) (z ∷ l) =
    let (y, m, q, f) = marked-last pid status z l in
    elim (Bool-cases (pid == b.pid)) [
      | inl e ↦ rw (e) (_, z ∷ l, refl, refl)
      | inr e ↦ rw (e) ((a, b), y ∷ m, ap (λ t. (a, b) ∷ t) q, f)
    ]

-- The signal handler, told by waitpid that `pid` ended with `status`, gives that status to the
-- first job with this pid and changes no other job, nor their order.
pub child_signal_handler-marked :
    (fuel pid status : ℕ) (s : Jobs) (l : List (ℕ × Bgproc))
    → IsJobs s l
    → length l < fuel
    → (t : Jobs) × (child_signal_handler fuel pid status s ≡ ok t)
      × IsJobs t (marked pid status l)
      × (t.root ≡ s.root)
unfolding child_signal_handler
child_signal_handler-marked fuel pid status s [] inv lt =
    let (h, run, m) = mark_status-Marked fuel s.heap s.root pid status [] inv lt in
    (record s { heap = h }, rw (run) refl, inv, refl)
child_signal_handler-marked fuel pid status s (x ∷ l) inv lt =
    let (h, run, k) = mark_status-Marked fuel s.heap s.root pid status (x ∷ l) inv.0 lt in
    let (y, m, e, f) = marked-last pid status x l in
    let t : Jobs = record s { heap = h } in
    let good : IsJobs t (y ∷ m) = (subst (λ i. Chain h s.root i) e k.chain, inv.1 ∙ sym f) in
    (t, rw (run) refl, subst (λ i. IsJobs t i) (sym e) good, refl)
