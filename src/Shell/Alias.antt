-- ===== src/Shell/Alias.antt =====
-- Minix_shell/GRS_Source_Code/grsAlias.c: the file of aliases. The bytes of a file are a list.
-- HOME is taken to be set, and short enough for the array of 1024 that holds the path.
pub mod Lines
pub mod Laws
use gjworks.Common.{
  ℕ, zero, suc, ◌-◌, Bool, true, false, ◌||◌, List, [], ◌∷◌, ◌++◌, Option, none, some, ◌==◌, leb,
  if◌then◌else◌, length, str_eq,
}
use gjworks.Machine.{Run, ok, fault}
use gjworks.Shell.Trim.{trim_whitespace}
use gjworks.Shell.Words.{end_token, tokens}

-- A path: no file, one that fopen refuses, or one with these bytes.
pub data FileState : Type 0 where
  absent unreadable : FileState
  contents : List ℕ → FileState

-- What `fgets(line, 1024, file)` gives call after call; `room` is what the line still holds of the
-- 1023 characters, and `line` what it has read.
unfoldable pub fgets_lines : ℕ → List ℕ → List ℕ → List (List ℕ)
unfolding end_token
fgets_lines room line [] = end_token line []
fgets_lines room line (c ∷ s) =
    let next : List (List ℕ) = fgets_lines 1023 [] s in
    let more : List (List ℕ) = fgets_lines (room - 1) (line ++ (c ∷ [])) s in
    if (c == 10) || leb room 1 then (line ++ (c ∷ [])) ∷ next else more

-- The characters before the first `c`, and those from it on.
unfoldable pub before : ℕ → List ℕ → List ℕ
before c [] = []
before c (d ∷ s) = if d == c then [] else d ∷ before c s

unfoldable pub from : ℕ → List ℕ → List ℕ
from c [] = []
from c (d ∷ s) = if d == c then d ∷ s else from c s

-- What `%[^c]` stores: nothing but for a string that is not empty.
unfoldable pub scan_field : List ℕ → Option (List ℕ)
scan_field [] = none
scan_field (c ∷ s) = some (c ∷ s)

-- `sscanf(line, "%[^=]=%[^\\r]", name, value)`, where it returns 2.
unfoldable pub scan_pair : List ℕ → Option (List ℕ × List ℕ)
unfolding before from scan_field
scan_pair line = elim (scan_field (before 61 line)) [
  | none ↦ none
  | some name ↦ elim (from 61 line) [
    | [] ↦ none
    | eq ∷ s ↦ elim (scan_field (before 13 s)) [ none ↦ none | some value ↦ some (name, value) ]
  ]
]

-- The string that trimWhitespace leaves in a buffer of zeros.
unfoldable pub trimmed : List ℕ → List ℕ
unfolding trim_whitespace
trimmed s = (trim_whitespace [] (length s) s).1

-- The name and the value of a line.
unfoldable pub pair_of : List ℕ → Option (List ℕ × List ℕ)
pair_of line = elim (scan_pair (trimmed line)) [
  | none ↦ none
  | some p ↦ some (trimmed p.0, trimmed p.1)
]

-- The loop: the value of the first line with that name.
unfoldable pub find_alias : List ℕ → List (List ℕ) → Option (List ℕ)
unfolding pair_of
find_alias cmd [] = none
find_alias cmd (line ∷ lines) =
    let rest : Option (List ℕ) = find_alias cmd lines in
    elim (pair_of line) [ none ↦ rest | some p ↦ if str_eq cmd p.0 then some p.1 else rest ]

-- The file that is read: the one in HOME if there is one, else that of the current directory.
unfoldable pub opened : FileState → FileState → Option (List ℕ)
opened absent absent = none
opened absent unreadable = none
opened absent (contents s) = some s
opened unreadable here = none
opened (contents s) here = some s

-- grsGetCmdAlias: argv after it. `strdup(NULL)` reads NULL.
unfoldable pub get_cmd_alias : FileState → FileState → List (List ℕ) → Run (List (List ℕ))
unfolding opened fgets_lines find_alias
get_cmd_alias home here [] = fault
get_cmd_alias home here (cmd ∷ args) = elim (opened home here) [
  | none ↦ ok (cmd ∷ args)
  | some s ↦ elim (find_alias cmd (fgets_lines 1023 [] s)) [
    | none ↦ ok (cmd ∷ args)
    | some value ↦ ok (value ∷ args)
  ]
]

-- `fprintf(file, "%s=%s\\n", name, value)` at the end of the file, if fopen could open or make it.
unfoldable pub append_alias : Bool → FileState → List ℕ → List ℕ → FileState
append_alias false home name value = home
append_alias true absent name value = contents (name ++ (61 ∷ (value ++ (10 ∷ []))))
append_alias true unreadable name value = unreadable
append_alias true (contents s) name value = contents (s ++ (name ++ (61 ∷ (value ++ (10 ∷ [])))))

-- The tokens between "=": with none, name and value are not set, and with one `strdup(NULL)` reads
-- NULL.
unfoldable pub write_alias : Bool → FileState → List (List ℕ) → Run FileState
unfolding append_alias
write_alias opens home [] = fault
write_alias opens home (name ∷ []) = fault
write_alias opens home (name ∷ (value ∷ more)) = ok (append_alias opens home name value)

-- grsSetAlias: the file in HOME after it. `cmd` is `argv[1]`, and is copied to an array of 1024.
unfoldable pub set_alias : Bool → FileState → Option (List ℕ) → Run FileState
unfolding write_alias tokens
set_alias opens home none = fault
set_alias opens home (some cmd) =
    if leb 1024 (length cmd) then fault else write_alias opens home (tokens 61 [] cmd)
