-- ===== src/Shell/Tests/Loop.antt =====
-- A session of the shell: `ls`, an empty line, and `exit`.
use gjworks.Common.{
  ℕ, zero, suc, ◌≡◌, refl, true, false, none, List, [], ◌∷◌, ◌++◌, length, str_eq, arith,
}
use gjworks.Machine.{ok, fault}
use gjworks.Shell.Alias.{absent}
use gjworks.Shell.Parser.{enter, fill_cmd, fill, is_separator, put, first_command}
use gjworks.Shell.Spawn.{System, Shell, returned, cmd_exec}
use gjworks.Shell.CmdLoop.{exited, and_then, Handlers, grs_cmd_loop}
use gjworks.Shell.CmdLoop.Laws.{IsText, typed, run_lines, grs_cmd_loop-run_lines}

-- A system that counts the programs it has started.
abbrev system : System ℕ
system = record {
  chdir = λ dir w. w;
  print_cwd = λ w. w;
  fork = λ w. (9, w);
  execvp = λ argv w. none;
  waitpid = λ child_pid w. (0, suc w);
  wexitstatus = λ status. status;
  opens = λ w. true;
  malloc = λ w. (1, record { pid = 0; cmd = []; index = 0; status = 0; next = 0 });
}

abbrev shell : Shell ℕ
shell = record {
  world = 0;
  jobs = record { heap = λ a. none; root = 0; tail = 0; bg_index = 1 };
  home = absent;
  here = absent;
  blocked = false;
}

abbrev handlers : Handlers ℕ
handlers = record {
  redirection = λ cmds redirect s. ok (returned 0 s);
  if_then_else = λ n cmds s. ok (returned 0 s);
}

abbrev lines : List (List ℕ)
lines = (108 ∷ 115 ∷ []) ∷ [] ∷ (101 ∷ 120 ∷ 105 ∷ 116 ∷ []) ∷ []

abbrev letters : ℕ → List ℕ
letters zero = []
letters (suc n) = 97 ∷ letters n

letters-IsText : (n : ℕ) → IsText (letters n)
letters-IsText zero = tt
letters-IsText (suc n) = ((omega arith, omega arith, omega arith), letters-IsText n)

length-letters : (n : ℕ) → length (letters n) ≡ n
length-letters zero = refl
length-letters (suc n) = omega (arith, length-letters n)

-- The loop leaves the shell at `exit`, and does not read on.
session : grs_cmd_loop system handlers 0 (typed lines (letters 200)) shell ≡ ok exited
unfolding grs_cmd_loop enter fill_cmd fill is_separator put first_command str_eq cmd_exec
session = refl

grs_cmd_loop-run_lines_example :
    (grs_cmd_loop system handlers 0 (typed lines []) shell ≡ run_lines system handlers lines shell)
    × (grs_cmd_loop system handlers 0 (typed lines (letters 100 ++ [])) shell
        ≡ and_then (run_lines system handlers lines shell) (λ t. fault))
grs_cmd_loop-run_lines_example =
    grs_cmd_loop-run_lines system handlers 0 lines (letters 100) [] shell (omega arith)
      (omega arith) (letters-IsText 100) (omega arith)
