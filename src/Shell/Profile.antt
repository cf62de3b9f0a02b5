-- ===== src/Shell/Profile.antt =====
-- Minix_shell/GRS_Source_Code/grsMain.c: loadProfile. The environment is the list of its setenv
-- calls, the last one first. HOME is taken to be set, and short enough for the array of 1024.
use gjworks.Common.{
  ℕ, suc, ◌≡◌, refl, ap, ◌∙◌, false, List, [], ◌∷◌, ◌++◌, none, some, Bool-cases, inl, inr, ltb,
  leb, if◌then◌else◌, length, arith,
}
use gjworks.Machine.{Run, ok, fault, ◌>>=◌}
use gjworks.Shell.Trim.{is_space}
use gjworks.Shell.Words.Laws.{joined}
use gjworks.Shell.Alias.{
  FileState, absent, unreadable, contents, fgets_lines, before, scan_pair, trimmed,
}
use gjworks.Shell.Alias.Lines.{
  fgets_lines-append, fgets_lines-line, plain-Other, IsPlain-joined, scan_pair-joined, trimmed-word,
  trimmed-line,
}
use gjworks.Shell.Alias.Laws.{IsAlias, IsEnded-line}

-- trimWhitespace to an array of as many characters as `s` has: its result and the NUL need one
-- more than the result has.
unfoldable pub trim_in_place : List ℕ → Run (List ℕ)
trim_in_place s = if ltb (length (trimmed s)) (length s) then ok (trimmed s) else fault

-- setenv with the trimmed name and value.
unfoldable pub set_pair : List ℕ × List ℕ → List (List ℕ × List ℕ) → Run (List (List ℕ × List ℕ))
unfolding trim_in_place
set_pair p env =
    trim_in_place p.0 >>= λ name. trim_in_place p.1 >>= λ value. ok ((name, value) ∷ env)

-- One line. `name` and `value` are arrays of as many characters as the trimmed line has; an array
-- of none is undefined, and so is a name of the whole line, whose NUL does not fit.
unfoldable pub load_line : List ℕ → List (List ℕ × List ℕ) → Run (List (List ℕ × List ℕ))
load_line line env =
    let d = trimmed line in
    if leb (length d) (length (before 61 d))
    then fault
    else elim (scan_pair d) [ none ↦ ok env | some p ↦ set_pair p env ]

unfoldable pub load_lines : List (List ℕ) → List (List ℕ × List ℕ) → Run (List (List ℕ × List ℕ))
load_lines [] env = ok env
load_lines (line ∷ lines) env = load_line line env >>= λ e. load_lines lines e

-- loadProfile: with no file in HOME or the current directory, `file` is used uninitialised.
unfoldable pub load_profile :
    FileState → FileState → List (List ℕ × List ℕ) → Run (List (List ℕ × List ℕ))
load_profile absent absent env = fault
load_profile absent unreadable env = ok env
load_profile absent (contents s) env = load_lines (fgets_lines 1023 [] s) env
load_profile unreadable here env = ok env
load_profile (contents s) here env = load_lines (fgets_lines 1023 [] s) env

set_pair-word :
    (n : ℕ) (name value : List ℕ) (env : List (List ℕ × List ℕ))
    → trimmed (n ∷ name) ≡ n ∷ name
    → set_pair (n ∷ name, value) env ≡ fault
unfolding set_pair
set_pair-word n name value env h =
    let full : ltb (suc (length name)) (suc (length name)) ≡ false = ground arith in
    rw (h, full) refl

load_line-pair :
    (line d : List ℕ) (p : List ℕ × List ℕ) (env : List (List ℕ × List ℕ))
    → trimmed line ≡ d
    → scan_pair d ≡ some p
    → set_pair p env ≡ fault
    → load_line line env ≡ fault
unfolding load_line
load_line-pair line d p env h k e = elim (Bool-cases (leb (length d) (length (before 61 d)))) [
  | inl f ↦ rw (load_line, h, f) refl
  | inr f ↦ rw (load_line, h, f, k) e
]

-- A profile whose first line is name=value, with no blanks around the two, is undefined
-- behaviour: the NUL of the trimmed name is written past its array.
pub load_profile-word :
    (name value rest : List ℕ) (here : FileState) (env : List (List ℕ × List ℕ))
    → IsAlias name value
    → load_profile (contents ((joined 61 name (value ∷ []) ++ (10 ∷ [])) ++ rest)) here env ≡ fault
unfolding load_profile load_lines is_space
load_profile-word [] value rest here env a = absurd a.name_word
load_profile-word (n ∷ name) [] rest here env a = absurd a.value_word
load_profile-word (n ∷ name) (v ∷ value) rest here env a =
    let w = joined 61 (n ∷ name) ((v ∷ value) ∷ []) in
    let plain = IsPlain-joined (n ∷ name) (v ∷ value) a.name_plain a.value_plain in
    let lines =
      fgets_lines-append (w ++ (10 ∷ [])) rest (IsEnded-line w)
      ∙ ap (λ l. l ++ fgets_lines 1023 [] rest)
          (fgets_lines-line w (plain-Other 10 w refl plain) a.short) in
    let first =
      load_line-pair (w ++ (10 ∷ [])) w (n ∷ name, v ∷ value) env
        (trimmed-line n (name ++ (61 ∷ (v ∷ value))) plain)
        (scan_pair-joined n name v value a.name_word a.value_plain)
        (set_pair-word n name (v ∷ value) env (trimmed-word n name a.name_plain)) in
    ap (λ l. load_lines l env) lines
    ∙ ap (λ r. r >>= λ e. load_lines (fgets_lines 1023 [] rest) e) first
