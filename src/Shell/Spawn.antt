-- ===== src/Shell/Spawn.antt =====
-- Minix_shell/GRS_Source_Code/grsProcess.c: grsSpawnProcess and grsBackgroundProcess; and
-- grsCmdExec.c. What the system calls do to the rest of the system, of type W, is a parameter.
pub mod Laws
use gjworks.Common.{
  ℕ, zero, suc, Bool, true, false, List, [], ◌∷◌, Option, none, some, ◌==◌, leb, length,
  if◌then◌else◌, str_eq,
}
use gjworks.Machine.{Run, ok, fault, ◌>>=◌}
use gjworks.Shell.Words.{parse_cmd, max_args}
use gjworks.Shell.Alias.{FileState, get_cmd_alias, set_alias}
use gjworks.Shell.Jobs.{Bgproc, Jobs, add_job}

-- The calls. `fork` returns 0 in the child; execvp returns, after its messages, or `none` when it
-- has replaced the program; waitpid gives the status, or -1 if it sets none.
pub record System (W : Type 0) : Type 0 where
  pub chdir : Option (List ℕ) → W → W
  pub print_cwd : W → W
  pub fork : W → ℕ × W
  pub execvp : List (List ℕ) → W → Option W
  pub waitpid : ℕ → W → ℕ × W
  pub wexitstatus : ℕ → ℕ
  pub opens : W → Bool
  pub malloc : W → ℕ × Bgproc

-- `blocked` is whether SIGINT and SIGTSTP are blocked.
pub record Shell (W : Type 0) : Type 0 where
  pub world : W
  pub jobs : Jobs
  pub home : FileState
  pub here : FileState
  pub blocked : Bool

-- The call returns to its caller, or another program goes on in its place.
pub data Spawned (W : Type 0) : Type 0 where
  returned : ℕ → Shell W → Spawned W
  replaced : Spawned W

-- `argv[1]`
abbrev pub first_arg : List (List ℕ) → Option (List ℕ)
first_arg [] = none
first_arg (arg ∷ args) = some arg

-- -1 as an `int`
abbrev pub minus_one : ℕ
minus_one = 4294967295

-- "cd", "pwd" and "alias"
abbrev pub cd_word : List ℕ
cd_word = 99 ∷ 100 ∷ []

abbrev pub pwd_word : List ℕ
pwd_word = 112 ∷ 119 ∷ 100 ∷ []

abbrev pub alias_word : List ℕ
alias_word = 97 ∷ 108 ∷ 105 ∷ 97 ∷ 115 ∷ []

module _ {W : Type 0} (sys : System W) where
  -- From the fork on, in the child. With 32 words there is no NULL at the end of argv, and execvp
  -- reads past it.
  unfoldable pub run_child : List (List ℕ) → Shell W → Run (Spawned W)
  run_child argv s =
      let called : Run (Spawned W) = elim (sys.execvp argv s.world) [
        | none ↦ ok replaced
        | some w ↦ ok (returned minus_one (record s { world = w; blocked = false }))
      ] in
      if leb max_args (length argv) then fault else called

  -- From the fork on, in the shell.
  unfoldable pub run_parent : ℕ → List ℕ → Bool → Shell W → Run (Spawned W)
  unfolding add_job
  run_parent child_pid cmd true s =
      add_job (sys.malloc s.world).0 (sys.malloc s.world).1 child_pid cmd s.jobs >>= λ jobs.
      ok (returned 0 (record s { jobs = jobs; blocked = false }))
  run_parent child_pid cmd false s =
      let (status, w) = sys.waitpid child_pid s.world in
      ok (returned (sys.wexitstatus status) (record s { world = w; blocked = false }))

  unfoldable pub run_program : List (List ℕ) → List ℕ → Bool → Shell W → Run (Spawned W)
  unfolding run_child run_parent
  run_program argv cmd background s =
      let (child_pid, w) = sys.fork s.world in
      let t : Shell W = record s { world = w } in
      if child_pid == 0 then run_child argv t else run_parent child_pid cmd background t

  -- With the words of the command, after the aliases. `strcmp(NULL, "cd")` reads NULL.
  unfoldable pub run_argv : List (List ℕ) → List ℕ → Bool → Shell W → Run (Spawned W)
  unfolding run_program set_alias
  run_argv [] cmd background s = fault
  run_argv (name ∷ args) cmd background s =
      if str_eq name cd_word
      then ok (returned 0 (record s { world = sys.chdir (first_arg args) s.world }))
      else if str_eq name pwd_word
      then ok (returned 0 (record s { world = sys.print_cwd s.world }))
      else if str_eq name alias_word
      then (set_alias (sys.opens s.world) s.home (first_arg args) >>= λ home.
          ok (returned 0 (record s { home = home })))
      else run_program (name ∷ args) cmd background s

  -- grsSpawnProcess
  unfoldable pub spawn_process : List ℕ → Bool → Shell W → Run (Spawned W)
  unfolding parse_cmd get_cmd_alias run_argv
  spawn_process cmd background s = do
    words ← parse_cmd cmd
    argv ← get_cmd_alias s.home s.here words
    run_argv argv cmd background (record s { blocked = true })

  -- grsBackgroundProcess
  unfoldable pub background_process : List ℕ → Shell W → Run (Spawned W)
  unfolding spawn_process
  background_process cmd s = spawn_process cmd true s

  -- grsCmdExec
  unfoldable pub cmd_exec : List ℕ → Shell W → Run (Spawned W)
  unfolding spawn_process
  cmd_exec cmd s = spawn_process cmd false s
