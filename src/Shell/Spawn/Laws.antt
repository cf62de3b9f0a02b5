-- ===== src/Shell/Spawn/Laws.antt =====
-- What grsSpawnProcess does with a command.
use gjworks.Common.{
  ℕ, ◌<◌, ◌≡◌, ◌≢◌, refl, ◌∙◌, Bool, true, false, ◌||◌, List, [], ◌∷◌, ◌==◌, ==_other, str_eq, leb,
  Bool-cases, Option-cases, inl, inr, All, length, arith,
}
use gjworks.Machine.{Run, ok, fault, out_of_fuel, Run-cases}
use gjworks.Machine.Chain.{Absent, snoc}
use gjworks.Shell.Words.{parse_cmd, drop_ampersand}
use gjworks.Shell.Words.Laws.{IsWord, joined, parse_cmd-joined}
use gjworks.Shell.Alias.{FileState, get_cmd_alias, set_alias}
use gjworks.Shell.Jobs.{Bgproc, bgproc_link, Jobs, add_job}
use gjworks.Shell.Jobs.Laws.{IsJobs, new_job, add_job-IsJobs}
use gjworks.Shell.Spawn.{
  System, Shell, Spawned, returned, replaced, first_arg, cd_word, pwd_word, alias_word, run_child,
  run_parent, run_program, run_argv, spawn_process, background_process,
}

-- The commands that the shell runs itself.
abbrev pub is_builtin : List (List ℕ) → Bool
is_builtin [] = false
is_builtin (name ∷ args) = str_eq name cd_word || (str_eq name pwd_word || str_eq name alias_word)

-- What is true of the result, if the call returns.
abbrev pub OnReturn : {W : Type 0} → (Shell W → Type 0) → Run (Spawned W) → Type 0
OnReturn P (ok (returned r s)) = P s
OnReturn P (ok replaced) = Unit
OnReturn P fault = Unit
OnReturn P out_of_fuel = Unit

-- What is true of a call: after a builtin it returns with the signals blocked, and it does not
-- return with them blocked after another command.
abbrev pub LeavesBlocked : {W : Type 0} → Bool → Run (Spawned W) → Type 0
LeavesBlocked true r = (n : ℕ) × (t : Shell _) × (r ≡ ok (returned n t)) × (t.blocked ≡ true)
LeavesBlocked false r = OnReturn (λ t. t.blocked ≡ false) r

module _ {W : Type 0} (sys : System W) where
  run_parent-unblocked :
      (child_pid : ℕ) (cmd : List ℕ) (background : Bool) (s : Shell W)
      → OnReturn (λ t. t.blocked ≡ false) (run_parent sys child_pid cmd background s)
  unfolding run_parent
  run_parent-unblocked child_pid cmd true s =
      elim (Run-cases
        (add_job (sys.malloc s.world).0 (sys.malloc s.world).1 child_pid cmd s.jobs)) [
          | inl (j, e) ↦ rw (e) refl
          | inr (inl e) ↦ rw (e) tt
          | inr (inr e) ↦ rw (e) tt
        ]
  run_parent-unblocked child_pid cmd false s = refl

  run_child-unblocked :
      (argv : List (List ℕ)) (s : Shell W)
      → OnReturn (λ t. t.blocked ≡ false) (run_child sys argv s)
  unfolding run_child
  run_child-unblocked argv s = elim (Bool-cases (leb 32 (length argv))) [
    | inl f ↦ rw (run_child, f) tt
    | inr f ↦ elim (Option-cases (sys.execvp argv s.world)) [
      | inl e ↦ rw (run_child, f, e) tt
      | inr (w, e) ↦ rw (run_child, f, e) refl
    ]
  ]

  run_program-unblocked :
      (argv : List (List ℕ)) (cmd : List ℕ) (background : Bool) (s : Shell W)
      → OnReturn (λ t. t.blocked ≡ false) (run_program sys argv cmd background s)
  unfolding run_program
  run_program-unblocked argv cmd background s =
      let w = (sys.fork s.world).1 in
      elim (Bool-cases ((sys.fork s.world).0 == 0)) [
        | inl e ↦ rw (e) (run_child-unblocked argv (record s { world = w }))
        | inr e ↦
            rw (e)
              (run_parent-unblocked (sys.fork s.world).0 cmd background (record s { world = w }))
      ]

  run_argv-blocked :
      (name : List ℕ) (args : List (List ℕ)) (cmd : List ℕ) (background : Bool) (s : Shell W)
      → s.blocked ≡ true
      → (str_eq name alias_word ≡ true
          → (home : FileState) × (set_alias (sys.opens s.world) s.home (first_arg args) ≡ ok home))
      → LeavesBlocked (is_builtin (name ∷ args)) (run_argv sys (name ∷ args) cmd background s)
  unfolding run_argv
  run_argv-blocked name args cmd background s h stores = elim (Bool-cases (str_eq name cd_word)) [
    | inl e ↦ rw (e) (0, record s { world = sys.chdir (first_arg args) s.world }, refl, h)
    | inr e ↦ elim (Bool-cases (str_eq name pwd_word)) [
      | inl f ↦ rw (e, f) (0, record s { world = sys.print_cwd s.world }, refl, h)
      | inr f ↦ elim (Bool-cases (str_eq name alias_word)) [
        | inl g ↦ let (home, i) = stores g in rw (e, f, g, i) (0, record s { home = home }, refl, h)
        | inr g ↦ rw (e, f, g) (run_program-unblocked (name ∷ args) cmd background s)
      ]
    ]
  ]

  -- After "cd", "pwd" and "alias", if the alias can be stored, grsSpawnProcess returns with SIGINT
  -- and SIGTSTP still blocked; after every other command it never returns with them blocked.
  pub spawn_process-blocked :
      (cmd : List ℕ) (background : Bool) (s : Shell W) (words : List (List ℕ)) (name : List ℕ)
      (args : List (List ℕ))
      → parse_cmd cmd ≡ ok words
      → get_cmd_alias s.home s.here words ≡ ok (name ∷ args)
      → (str_eq name alias_word ≡ true
          → (home : FileState) × (set_alias (sys.opens s.world) s.home (first_arg args) ≡ ok home))
      → LeavesBlocked (is_builtin (name ∷ args)) (spawn_process sys cmd background s)
  unfolding spawn_process
  spawn_process-blocked cmd background s words name args h k stores =
      rw (spawn_process, h, k)
        (run_argv-blocked name args cmd background (record s { blocked = true }) refl stores)

  run_argv-program :
      (name : List ℕ) (args : List (List ℕ)) (cmd : List ℕ) (background : Bool) (s : Shell W)
      → is_builtin (name ∷ args) ≡ false
      → run_argv sys (name ∷ args) cmd background s ≡ run_program sys (name ∷ args) cmd background s
  unfolding run_argv
  run_argv-program name args cmd background s h = elim (Bool-cases (str_eq name cd_word)) [
    | inl e ↦ ground (arith, e, h)
    | inr e ↦ elim (Bool-cases (str_eq name pwd_word)) [
      | inl f ↦ ground (arith, e, f, h)
      | inr f ↦ elim (Bool-cases (str_eq name alias_word)) [
        | inl g ↦ ground (arith, e, f, g, h)
        | inr g ↦ rw (e, f, g) refl
      ]
    ]
  ]

  run_program-background :
      (argv : List (List ℕ)) (cmd : List ℕ) (s : Shell W) (jobs : Jobs)
      → let (child_pid, w) = sys.fork s.world in
        child_pid ≢ 0
        → add_job (sys.malloc w).0 (sys.malloc w).1 child_pid cmd s.jobs ≡ ok jobs
        → run_program sys argv cmd true s
          ≡ ok (returned 0 (record s { world = w; jobs = jobs; blocked = false }))
  unfolding run_program run_parent
  run_program-background argv cmd s jobs h e = rw (==_other (sys.fork s.world).0 0 h, e) refl

  spawn_process-argv :
      (cmd : List ℕ) (background : Bool) (s : Shell W) (words argv : List (List ℕ))
      → parse_cmd cmd ≡ ok words
      → get_cmd_alias s.home s.here words ≡ ok argv
      → spawn_process sys cmd background s
        ≡ run_argv sys argv cmd background (record s { blocked = true })
  unfolding spawn_process
  spawn_process-argv cmd background s words argv h k = rw (spawn_process, h, k) refl

  -- A program that grsBackgroundProcess starts becomes the last job. The command is one to 32
  -- words, is no builtin after the aliases, fork succeeds in the shell, and malloc returns a new
  -- struct; then the call returns 0, and the list of jobs, which stays well formed, has the
  -- process with its command at its end.
  pub background_process-IsJobs :
      (word : List ℕ) (words : List (List ℕ)) (argv : List (List ℕ)) (s : Shell W)
      (l : List (ℕ × Bgproc))
      → IsWord 32 word
      → All (IsWord 32) words
      → length words < 32
      → length (joined 32 word words) < 1024
      → get_cmd_alias s.home s.here (drop_ampersand (word ∷ words)) ≡ ok argv
      → argv ≢ []
      → is_builtin argv ≡ false
      → (sys.fork s.world).0 ≢ 0
      → IsJobs s.jobs l
      → let (a, junk) = sys.malloc (sys.fork s.world).1 in
        a ≢ 0
        → Absent a l
        → (t : Shell W) × (background_process sys (joined 32 word words) s ≡ ok (returned 0 t))
          × IsJobs t.jobs
              (snoc l a (new_job junk (sys.fork s.world).0 s.jobs.bg_index (joined 32 word words)))
  unfolding background_process
  background_process-IsJobs word words [] s l h k few short alias full plain parent inv nz new =
      absurd (full refl)
  background_process-IsJobs word words (name ∷ args) s l h k few short alias full plain parent inv
        nz new =
      let w = (sys.fork s.world).1 in
      let (a, junk) = sys.malloc w in
      let (jobs, run, good, _) =
        add_job-IsJobs a junk (sys.fork s.world).0 (joined 32 word words) s.jobs l inv nz new
          short in
      let t : Shell W = record s { blocked = true } in
      (
        record s { world = w; jobs = jobs; blocked = false },
        spawn_process-argv (joined 32 word words) true s _ (name ∷ args)
              (parse_cmd-joined word words h k few short) alias
            ∙ (run_argv-program name args (joined 32 word words) true t plain
                ∙ run_program-background (name ∷ args) (joined 32 word words) t jobs parent run),
        good,
      )
