-- ===== src/Shell/Tests/Programs.antt =====
-- The shell's programs, jobs and aliases on short commands.
use gjworks.Common.{
  ℕ, ◌≡◌, ◌≢◌, refl, true, false, Option, none, some, List, [], ◌∷◌, ◌==◌, ◌+◌, leb, if◌then◌else◌,
  str_eq, arith,
}
use gjworks.Machine.{ok, Heap}
use gjworks.Machine.Chain.{snoc, last}
use gjworks.Shell.Trim.{is_space}
use gjworks.Shell.Words.{parse_cmd, drop_ampersand}
use gjworks.Shell.Words.Laws.{joined}
use gjworks.Shell.Alias.{absent, contents, set_alias, get_cmd_alias, find_alias, fgets_lines}
use gjworks.Shell.Alias.Lines.{IsEnded}
use gjworks.Shell.Alias.Laws.{IsAlias, or_else, or_name, get_cmd_alias-set}
use gjworks.Shell.Jobs.{Bgproc, Jobs, bgproc_link, add_job}
use gjworks.Shell.Jobs.Laws.{IsJobs, new_job, add_job-IsJobs}
use gjworks.Shell.Spawn.{System, Shell, returned, spawn_process, background_process}
use gjworks.Shell.Spawn.Laws.{
  LeavesBlocked, is_builtin, spawn_process-blocked, background_process-IsJobs,
}
use gjworks.Shell.Redirection.{Fds, redirect_to}
use gjworks.Shell.Redirection.Laws.{redirect_to-restored, redirect_to-leaks}

-- "ls", "cd" and "&"
abbrev ls : List ℕ
ls = 108 ∷ 115 ∷ []

abbrev cd : List ℕ
cd = 99 ∷ 100 ∷ []

abbrev ampersand : List ℕ
ampersand = 38 ∷ []

-- One job, "ls", at address 1.
abbrev job : Bgproc
job = record { index = 1; pid = 7; cmd = ls; status = 256; next = 0 }

abbrev job_heap : Heap Bgproc
job_heap q = if 1 == q then some job else none

abbrev jobs : Jobs
jobs = record { heap = job_heap; root = 1; tail = 1; bg_index = 2 }

jobs-IsJobs : IsJobs jobs ((1, job) ∷ [])
unfolding last
jobs-IsJobs = ((refl, omega arith, refl, tt, refl), refl)

add_job-IsJobs_example :
    (t : Jobs) × (add_job 2 job 8 cd jobs ≡ ok t)
    × IsJobs t (snoc ((1, job) ∷ []) 2 (new_job job 8 2 cd))
    × (t.bg_index ≡ 3)
add_job-IsJobs_example =
    add_job-IsJobs 2 job 8 cd jobs ((1, job) ∷ []) jobs-IsJobs (omega arith) (omega arith, tt)
      (omega arith)

ls-IsAlias : IsAlias ls cd
unfolding is_space
ls-IsAlias = record {
  name_word = (refl, (refl, tt));
  value_word = (refl, (refl, tt));
  name_plain = ((refl, omega arith), ((refl, omega arith), tt));
  value_plain = ((refl, omega arith), ((refl, omega arith), tt));
  short = omega arith;
}

-- `alias ls=cd`, and then `ls`
get_cmd_alias-set_example :
    (t : List ℕ) × (set_alias true (contents []) (some (joined 61 ls (cd ∷ []))) ≡ ok (contents t))
    × IsEnded t
    × (get_cmd_alias (contents t) absent (ls ∷ [])
        ≡ ok (
            or_name ls (
              or_else
                (find_alias ls (fgets_lines 1023 [] []))
                (if str_eq ls ls then some cd else none))
            ∷ []))
get_cmd_alias-set_example = get_cmd_alias-set [] ls cd ls [] absent tt ls-IsAlias

-- A system that counts the programs it has started.
abbrev system : System ℕ
system = record {
  chdir = λ dir w. w;
  print_cwd = λ w. w;
  fork = λ w. (w, w + 1);
  execvp = λ argv w. none;
  waitpid = λ child_pid w. (0, w);
  wexitstatus = λ status. status;
  opens = λ w. true;
  malloc = λ w. (2, job);
}

abbrev shell : Shell ℕ
shell = record { world = 9; jobs = jobs; home = absent; here = absent; blocked = false }

spawn_process-blocked_example :
    LeavesBlocked
      (is_builtin (cd ∷ ls ∷ []))
      (spawn_process system (joined 32 cd (ls ∷ [])) false shell)
unfolding parse_cmd get_cmd_alias str_eq
spawn_process-blocked_example =
    spawn_process-blocked system (joined 32 cd (ls ∷ [])) false shell (cd ∷ ls ∷ []) cd (ls ∷ [])
      refl refl (λ e. ground (arith, e))

background_process-IsJobs_example :
    (t : Shell ℕ) × (background_process system (joined 32 ls (ampersand ∷ [])) shell
      ≡ ok (returned 0 t))
    × IsJobs t.jobs (snoc ((1, job) ∷ []) 2 (new_job job 9 2 (joined 32 ls (ampersand ∷ []))))
unfolding drop_ampersand get_cmd_alias str_eq
background_process-IsJobs_example =
    background_process-IsJobs system ls (ampersand ∷ []) (ls ∷ []) shell ((1, job) ∷ [])
      (refl, (refl, tt)) ((refl, tt), tt) (omega arith) (omega arith) refl (λ e. ground (arith, e))
      refl (omega arith) jobs-IsJobs (omega arith) (omega arith, tt)

-- Three files open, the next descriptor being 3; a file opens as number 40 of the system.
abbrev fds : Fds
fds q = if leb 3 q then 0 else 11 + q

abbrev next_fd : Fds → ℕ
next_fd t = if t 3 == 0 then 3 else 4

abbrev open_file : Option (List ℕ) → ℕ → Option ℕ × ℕ
open_file filename w = elim filename [ none ↦ (none, w) | some name ↦ (some 40, w + 1) ]

-- A command that writes down the file of descriptor 1.
abbrev spawn : Option (List ℕ) → Fds → ℕ → ℕ × ℕ
spawn cmd t w = (0, t 1)

redirect_to-restored_example :
    let r = redirect_to open_file spawn next_fd 1 (some ls) (some cd) fds 0 in
    (u : Fds) × (u 1 ≡ 40)
    × ((q : ℕ) → q ≢ 1 → q ≢ 3 → u q ≡ fds q)
    × (r.2 ≡ (spawn (some ls) u 1).1)
    × ((q : ℕ) → r.1 q ≡ fds q)
redirect_to-restored_example =
    redirect_to-restored open_file spawn next_fd 1 (some ls) (some cd) fds 0 40 (omega arith) refl
      refl (omega arith) refl

redirect_to-leaks_example :
    let r = redirect_to open_file spawn next_fd 1 (some ls) none fds 0 in
    (r.0 ≡ 4294967295) × (r.1 3 ≡ 12) × ((q : ℕ) → q ≢ 3 → r.1 q ≡ fds q) × (r.2 ≡ 0)
redirect_to-leaks_example =
    redirect_to-leaks open_file spawn next_fd 1 (some ls) none fds 0 (omega arith) refl
