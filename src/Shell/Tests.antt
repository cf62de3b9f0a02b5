-- ===== src/Shell/Tests.antt =====
-- The shell on short lines.
mod Programs
mod Loop
use gjworks.Shell.IfThenElse.{
  if_then_else, if_word, then_word, else_word, fi_word, skip_spaces, finish, before_fi, starts_fi,
  after_word,
}
use gjworks.Shell.IfThenElse.Runs.{if_then_else-runs}
use gjworks.Common.{
  Bool, true, false, ℕ, ◌≡◌, ◌⊎◌, refl, List, [], ◌∷◌, ◌++◌, map, if◌then◌else◌, str_eq, arith,
}
use gjworks.Machine.{ok, fault}
use gjworks.Shell.Trim.{IsSpace, Trimmed, trim_whitespace, trim_whitespace-Trimmed}
use gjworks.Shell.Parser.{
  clear_flags, is_separator, strip_one, fill_cmd, enter, exit_shell, cmd_exec, is_empty,
}
use gjworks.Shell.Parser.Laws.{
  skip_blank, line_of, last_command, raise_all, fill_cmd-blank, enter-plain,
}
use gjworks.Shell.Parser.Lines.{Command, line, fill_cmd-line}

-- " ls "
abbrev ls : List ℕ
ls = 32 ∷ 108 ∷ 115 ∷ 32 ∷ []

-- "wc"
abbrev wc : List ℕ
wc = 119 ∷ 99 ∷ []

-- `" ls "`, without the blanks.
trim_whitespace-Trimmed_example :
    (IsSpace ls × (trim_whitespace [] 4 ls ≡ (1, [])))
    ⊎ Trimmed ls (trim_whitespace [] 4 ls).0 (trim_whitespace [] 4 ls).1
trim_whitespace-Trimmed_example =
    trim_whitespace-Trimmed [] ls 4 (omega arith)
      (omega arith, (omega arith, (omega arith, (omega arith, tt))))

-- " ls  |wc > x"
abbrev two_commands : List Command
two_commands =
    record { before = 1; body = 108 ∷ 115 ∷ []; after = 2; separator = 124 }
    ∷ record { before = 0; body = wc; after = 1; separator = 62 }
    ∷ []

fill_cmd-line_example :
    fill_cmd (line two_commands 1 (120 ∷ [])) clear_flags
    ≡ ok (
      (108 ∷ 115 ∷ 32 ∷ []) ∷ wc ∷ (120 ∷ []) ∷ [],
      record {
        pipe = true;
        redir_out = true;
        redir_in = false;
        background = false;
        if_then_else = false;
      },
    )
fill_cmd-line_example =
    fill_cmd-line two_commands 1 (120 ∷ [])
      (
        record {
          plain = (refl, (refl, (refl, (refl, (refl, tt)))));
          short = omega arith;
          starts = refl;
          ends = refl;
          separates = refl;
        },
        (
          record {
            plain = (refl, (refl, (refl, tt)));
            short = omega arith;
            starts = refl;
            ends = refl;
            separates = refl;
          },
          tt,
        ),
      )
      (refl, (refl, tt)) refl (omega arith) (omega arith)

-- grsCmdExec that keeps the commands, and fails for "ls".
abbrev exec : List ℕ → List (List ℕ) → Bool × List (List ℕ)
exec cmd s = (str_eq cmd (108 ∷ 115 ∷ []), s ++ (cmd ∷ []))

-- "if wc", "then ls" and "else wc fi"
if_then_else-runs_example :
    if_then_else exec 3 (if_word ++ wc) (then_word ++ ls) (else_word ++ (wc ++ (fi_word ++ []))) []
    ≡ ok (
        if (exec (skip_spaces wc) []).0
        then finish exec (skip_spaces wc) (exec (skip_spaces wc) []).1
        else finish exec (skip_spaces ls) (exec (skip_spaces wc) []).1)
unfolding before_fi starts_fi after_word
if_then_else-runs_example =
    if_then_else-runs exec 3 wc ls wc [] [] (omega arith) refl (omega arith) (omega arith)
      (omega arith)
