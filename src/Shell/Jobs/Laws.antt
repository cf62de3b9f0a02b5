-- ===== src/Shell/Jobs/Laws.antt =====
-- What the list of background processes holds.
use gjworks.Common.{
  ℕ, suc, ◌<◌, ◌≡◌, ◌≢◌, refl, sym, subst, ap, ◌∙◌, List, [], ◌∷◌, some, ==_refl, length, arith,
}
use gjworks.Machine.{ok, update, load-some, store-some}
use gjworks.Machine.Chain.{
  Absent, Chain, snoc, last, last-cell, last-Absent, Attached, Attached-Chain,
}
use gjworks.Shell.Jobs.{Bgproc, Jobs, bgproc_link, link_job, add_job}

-- `root` leads through the structs of the list, and `tail` points to the last of them.
abbrev pub IsJobs : Jobs → List (ℕ × Bgproc) → Type 0
IsJobs s [] = s.root ≡ 0
IsJobs s (x ∷ l) = Chain s.heap s.root (x ∷ l) × (s.tail ≡ (last x l).0)

-- The struct that add_job writes.
abbrev pub new_job : Bgproc → ℕ → ℕ → List ℕ → Bgproc
new_job junk child_pid index cmd = record junk {
  pid = child_pid;
  index = index;
  next = 0;
  cmd = cmd;
}

last-snoc :
    (x : ℕ × Bgproc) (l : List (ℕ × Bgproc)) (a : ℕ) (d : Bgproc)
    → (y : ℕ × Bgproc) × (m : List (ℕ × Bgproc)) × (snoc (x ∷ l) a d ≡ y ∷ m) × ((last y m).0 ≡ a)
unfolding snoc last
last-snoc (b, c) [] a d = ((b, record c { next = a }), (a, d) ∷ [], refl, refl)
last-snoc x (y ∷ l) a d = let (z, m, e, h) = last-snoc y l a d in (x, z ∷ m, ap (λ t. x ∷ t) e, h)

-- The list before add_job fills the new struct.
link_job-empty :
    (a : ℕ) (junk : Bgproc) (s : Jobs)
    → s.root ≡ 0
    → link_job a junk s ≡ ok (record s { heap = update s.heap a (some junk); root = a; tail = a })
unfolding link_job
link_job-empty a junk s e = ground arith

link_job-more :
    (a : ℕ) (junk : Bgproc) (s : Jobs) (b : Bgproc)
    → s.root ≢ 0
    → s.tail ≢ 0
    → s.tail ≢ a
    → a ≢ 0
    → s.heap s.tail ≡ some b
    → link_job a junk s
      ≡ ok (record s {
        heap =
            update
              (update (update s.heap a (some junk)) s.tail (some (record b { next = a })))
              a
              (some (record junk { next = 0 }));
        tail = a;
      })
unfolding link_job
link_job-more a junk s b full there other nz cell = ground (arith, ==_refl a)

add_job-link_job :
    (a : ℕ) (junk : Bgproc) (child_pid : ℕ) (cmd : List ℕ) (s t : Jobs) (c : Bgproc)
    → link_job a junk s ≡ ok t
    → t.tail ≡ a
    → a ≢ 0
    → t.heap a ≡ some c
    → length cmd < 1024
    → add_job a junk child_pid cmd s
      ≡ ok (record t {
        heap = update t.heap a (some (new_job c child_pid t.bg_index cmd));
        bg_index = suc t.bg_index;
      })
unfolding add_job
add_job-link_job a junk child_pid cmd s t c e there nz cell short =
    ground (arith, load-some t.heap a c, store-some t.heap a c)

-- A background process is added behind the others: when malloc returns a new struct and the
-- command is shorter than 1024, the list that root leads through has one job more, with the
-- index and the pid, and tail points to it. Its status is the one that was in the memory.
pub add_job-IsJobs :
    (a : ℕ) (junk : Bgproc) (child_pid : ℕ) (cmd : List ℕ) (s : Jobs) (l : List (ℕ × Bgproc))
    → IsJobs s l
    → a ≢ 0
    → Absent a l
    → length cmd < 1024
    → (t : Jobs) × (add_job a junk child_pid cmd s ≡ ok t)
      × IsJobs t (snoc l a (new_job junk child_pid s.bg_index cmd))
      × (t.bg_index ≡ suc s.bg_index)
unfolding add_job link_job snoc last
add_job-IsJobs a junk child_pid cmd s [] inv nz away short =
    let t : Jobs = record s { heap = update s.heap a (some junk); root = a; tail = a } in
    let c : t.heap a ≡ some junk = ground arith in
    let e =
      add_job-link_job a junk child_pid cmd s t junk (link_job-empty a junk s inv) refl nz c
        short in
    let f : update t.heap a (some (new_job junk child_pid t.bg_index cmd)) a
        ≡ some (new_job junk child_pid s.bg_index cmd) =
      ground arith in
    (_, e, ((refl, nz, f, tt, refl), refl), refl)
add_job-IsJobs a junk child_pid cmd s (x ∷ l) inv nz away short =
    let d = new_job junk child_pid s.bg_index cmd in
    let (there, cell) = last-cell s.heap s.root x l inv.0 in
    let other = last-Absent x l a away in
    let b = (last x l).1 in
    let h =
      update (update (update s.heap a (some junk)) s.tail (some (record b { next = a }))) a
        (some (record junk { next = 0 })) in
    let t : Jobs = record s { heap = h; tail = a } in
    let c : t.heap a ≡ some (record junk { next = 0 }) = ground arith in
    let made =
      add_job-link_job a junk child_pid cmd s t _
        (link_job-more a junk s b (λ e. inv.0.1 (sym inv.0.0 ∙ e)) (λ e. there (sym inv.1 ∙ e))
          (λ e. other (sym inv.1 ∙ e)) nz (ap s.heap inv.1 ∙ cell))
        refl nz c short in
    let at : Attached s.heap (update t.heap a (some d)) x l a d = record {
      new = ground arith;
      linked = ground (arith, inv.1);
      kept = λ q ne ne'. ground (arith, inv.1);
    } in
    let chain = Attached-Chain s.heap _ s.root x l a d inv.0 nz away refl at in
    let (y, m, e, f) = last-snoc x l a d in
    let u : Jobs = record t { heap = update t.heap a (some d); bg_index = suc s.bg_index } in
    let good : IsJobs u (y ∷ m) = (subst (λ k. Chain u.heap u.root k) e chain, sym f) in
    (u, made, subst (λ k. IsJobs u k) (sym e) good, refl)
