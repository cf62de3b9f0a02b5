-- ===== src/Shell/IfThenElse.antt =====
-- Minix_shell/GRS_Source_Code/grsIfThenElse.c: "if cmd; then cmd1; else cmd2 fi". What grsCmdExec
-- does is a parameter: whether it returns -1, and the state of the system after it.
pub mod Runs
use gjworks.Common.{
  ℕ, zero, suc, ◌≤◌, ◌≡◌, refl, ap, ◌∙◌, Bool, true, false, ◌&&◌, Option, none, some, List, [], ◌∷◌,
  ◌++◌, ◌==◌, ltb, leb, if◌then◌else◌, length, arith, Bool-cases, inl, inr, ==_refl,
}
use gjworks.Machine.{Run, ok, fault, ◌>>=◌}

-- How grsIfThenElse ends: with an error that it prints, or after its commands, the second of which
-- failed or not.
pub data Outcome : Type 0 where
  incomplete syntax_error invalid failed done : Outcome

-- `strncpy` into zeros, and `strcmp` with a word: whether the string starts with the word; what
-- follows it, if so.
unfoldable pub after_word : List ℕ → List ℕ → Option (List ℕ)
after_word [] s = some s
after_word (c ∷ word) [] = none
after_word (c ∷ word) (d ∷ s) = let rest = after_word word s in if c == d then rest else none

unfoldable pub starts_fi : List ℕ → Bool
starts_fi s = elim (after_word (102 ∷ 105 ∷ []) s) [ none ↦ false | some t ↦ true ]

-- `strstr(s, "fi")`: what is before the first "fi".
unfoldable pub before_fi : List ℕ → Option (List ℕ)
before_fi [] = none
before_fi (c ∷ s) =
    let rest : Option (List ℕ) = elim (before_fi s) [ none ↦ none | some t ↦ some (c ∷ t) ] in
    if starts_fi (c ∷ s) then some [] else rest

-- `while(*grsTmpCmd==' ') grsTmpCmd++;`
unfoldable pub skip_spaces : List ℕ → List ℕ
skip_spaces [] = []
skip_spaces (c ∷ s) = if c == 32 then skip_spaces s else c ∷ s

-- `strcpy` to strtmp, an array of 100.
unfoldable pub copy : List ℕ → Run (List ℕ)
copy s = if leb 100 (length s) then fault else ok s

abbrev pub if_word : List ℕ
if_word = 105 ∷ 102 ∷ []

abbrev pub then_word : List ℕ
then_word = 116 ∷ 104 ∷ 101 ∷ 110 ∷ []

abbrev pub else_word : List ℕ
else_word = 101 ∷ 108 ∷ 115 ∷ 101 ∷ []

abbrev pub fi_word : List ℕ
fi_word = 102 ∷ 105 ∷ []

module _ {S : Type 0} (exec : List ℕ → S → Bool × S) where
  -- The last call of grsCmdExec, and its message.
  unfoldable pub finish : List ℕ → S → Outcome × S
  finish cmd s = let r = exec cmd s in (if r.0 then failed else done, r.1)

  -- `strcpy(grsTmp,"\0")` with a NULL is undefined.
  unfoldable pub cut_and_finish : List ℕ → S → Run (Outcome × S)
  cut_and_finish tmp s = elim (before_fi tmp) [ none ↦ fault | some cmd ↦ ok (finish cmd s) ]

  -- The branch for -1.
  unfoldable pub else_branch : List ℕ → S → Run (Outcome × S)
  else_branch buf s = elim (after_word else_word buf) [
    | none ↦ ok (invalid, s)
    | some rest ↦ copy (skip_spaces rest) >>= λ tmp. cut_and_finish tmp s
  ]

  unfoldable pub then_branch : List ℕ → S → Run (Outcome × S)
  then_branch buf s = elim (after_word then_word buf) [
    | none ↦ ok (invalid, s)
    | some rest ↦ copy (skip_spaces rest) >>= λ cmd. ok (finish cmd s)
  ]

  -- With "if" found: the condition, and the branch.
  unfoldable pub run_condition : List ℕ → List ℕ → List ℕ → S → Run (Outcome × S)
  run_condition rest buf1 buf2 s = do
    cmd ← copy (skip_spaces rest)
    let r = exec cmd s
    if r.0 then else_branch buf2 r.1 else then_branch buf1 r.1

  unfoldable pub if_then_else : ℕ → List ℕ → List ℕ → List ℕ → S → Run (Outcome × S)
  if_then_else no_cmds buf0 buf1 buf2 s =
      let run : Run (Outcome × S) = elim (after_word if_word buf0) [
        | none ↦ ok (invalid, s)
        | some rest ↦ run_condition rest buf1 buf2 s
      ] in
      if ltb no_cmds 3
      then ok (incomplete, s)
      else elim (before_fi buf2) [ none ↦ ok (syntax_error, s) | some t ↦ run ]
