-- ===== src/Shell/Words.antt =====
-- Minix_shell/GRS_Source_Code/grsProcess.c: parseCmd, with the strtok that it calls.
pub mod Laws
use gjworks.Common.{
  ℕ, zero, suc, Bool, true, false, List, [], ◌∷◌, ◌++◌, ◌==◌, leb, ltb, if◌then◌else◌, length,
  str_eq,
}
use gjworks.Machine.{Run, ok, fault}

-- A token that ends, before the others; an empty one is none.
unfoldable pub end_token : List ℕ → List (List ℕ) → List (List ℕ)
end_token [] words = words
end_token (c ∷ token) words = (c ∷ token) ∷ words

-- What strtok gives call after call for the separator `sep`; `token` is the one it stands in.
unfoldable pub tokens : ℕ → List ℕ → List ℕ → List (List ℕ)
unfolding end_token
tokens sep token [] = end_token token []
tokens sep token (c ∷ s) =
    let rest : List (List ℕ) = tokens sep [] s in
    let more : List (List ℕ) = tokens sep (token ++ (c ∷ [])) s in
    if c == sep then end_token token rest else more

-- MAX_ARGS of grs.h, the size of argv.
abbrev pub max_args : ℕ
max_args = 32

-- `argv[index] = NULL` for a last word "&".
unfoldable pub drop_ampersand : List (List ℕ) → List (List ℕ)
drop_ampersand [] = []
drop_ampersand (word ∷ []) = if str_eq word (38 ∷ []) then [] else word ∷ []
drop_ampersand (word ∷ (next ∷ words)) = word ∷ drop_ampersand (next ∷ words)

-- No word at all reads argv[-1]; more than 32 are written past the end of argv.
unfoldable pub fill_argv : List (List ℕ) → Run (List (List ℕ))
unfolding drop_ampersand
fill_argv [] = fault
fill_argv (word ∷ words) =
    if ltb max_args (length (word ∷ words)) then fault else ok (drop_ampersand (word ∷ words))

-- The words of `argv` before its first NULL. The command is copied to an array of 1024.
unfoldable pub parse_cmd : List ℕ → Run (List (List ℕ))
unfolding tokens fill_argv
parse_cmd [] = ok []
parse_cmd (c ∷ cmd) =
    if leb 1024 (length (c ∷ cmd)) then fault else fill_argv (tokens 32 [] (c ∷ cmd))
