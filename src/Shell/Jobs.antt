-- ===== src/Shell/Jobs.antt =====
-- Minix_shell/GRS_Source_Code/grsProcess.c: the list of background processes.
pub mod Laws
pub mod Ends
use gjworks.Common.{
  ℕ, zero, suc, ◌+◌, refl, Bool, true, false, List, [], ◌∷◌, some, ◌==◌, leb, if◌then◌else◌, length,
}
use gjworks.Machine.{Run, ok, fault, out_of_fuel, ◌>>=◌, Heap, Linked, update, load, store, free}

-- `struct bgprocs`
pub record Bgproc : Type 0 where
  pub index : ℕ
  pub pid : ℕ
  pub cmd : List ℕ
  pub status : ℕ
  pub next : ℕ

instance abbrev pub bgproc_link : Linked Bgproc
bgproc_link = record {
  next = λ b. b.next;
  set_next = λ b p. record b { next = p };
  next-set = λ b p. refl;
}

-- The structs, and the variables `root`, `tail` and `bg_index`.
pub record Jobs : Type 0 where
  pub heap : Heap Bgproc
  pub root : ℕ
  pub tail : ℕ
  pub bg_index : ℕ

-- The loop of childSignalHandler, for what waitpid returned.
unfoldable pub mark_status : ℕ → Heap Bgproc → ℕ → ℕ → ℕ → Run (Heap Bgproc)
unfolding load store
mark_status zero h current pid status = out_of_fuel
mark_status (suc fuel) h current pid status =
    if current == 0
    then ok h
    else load h current >>= λ b.
        let rest : Run (Heap Bgproc) = mark_status fuel h b.next pid status in
        if pid == b.pid then store h current (record b { status = status }) else rest

unfoldable pub child_signal_handler : ℕ → ℕ → ℕ → Jobs → Run Jobs
unfolding mark_status
child_signal_handler fuel pid status s =
    mark_status fuel s.heap s.root pid status >>= λ h. ok (record s { heap = h })

-- malloc returns `a`, and `junk` is what the struct holds there. Only its status stays.
unfoldable pub link_job : ℕ → Bgproc → Jobs → Run Jobs
unfolding load store
link_job a junk s =
    let h = update s.heap a (some junk) in
    if s.root == 0
    then ok (record s { heap = h; root = a; tail = a })
    else load h s.tail >>= λ b. store h s.tail (record b { next = a }) >>= λ h'. load h' a >>= λ c.
        store h' a (record c { next = 0 }) >>= λ h''. ok (record s { heap = h''; tail = a })

-- The branch of grsSpawnProcess for a background process. `cmd` is copied to an array of 1024.
unfoldable pub add_job : ℕ → Bgproc → ℕ → List ℕ → Jobs → Run Jobs
unfolding link_job load store
add_job a junk child_pid cmd s = link_job a junk s >>= λ t. load t.heap t.tail >>= λ b.
    if leb 1024 (length cmd)
    then fault
    else store t.heap t.tail (record b { pid = child_pid; index = t.bg_index; next = 0; cmd = cmd })
      >>= λ h. ok (record t { heap = h; bg_index = suc t.bg_index })

module _ (exited : ℕ → Bool) where
  -- The loop of grsCheckBgProcs; `exited` is WIFEXITED.
  unfoldable pub check_from : ℕ → Jobs → ℕ → ℕ → Run Jobs
  unfolding load store free
  check_from zero s current previous = out_of_fuel
  check_from (suc fuel) s current previous =
      if current == 0
      then ok s
      else load s.heap s.tail >>= λ t. load s.heap current >>= λ c.
          let rest : Run Jobs = check_from fuel s c.next current in
          let unlinked : Run Jobs =
            if current == s.root
            then ok (record s { root = c.next })
            else load s.heap previous >>= λ p.
                store s.heap previous (record p { next = c.next }) >>= λ h.
                ok (record s { heap = h }) in
          let freed : Run Jobs = unlinked >>= λ u. free u.heap current >>= λ h.
          load h current >>= λ d. check_from fuel (record u { heap = h }) d.next current in
          if exited t.status then freed else rest

  unfoldable pub check_bg_procs : ℕ → Jobs → Run Jobs
  unfolding check_from
  check_bg_procs fuel s = if s.root == 0 then ok s else check_from fuel s s.root s.root
