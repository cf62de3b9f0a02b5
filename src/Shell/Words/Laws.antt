-- ===== src/Shell/Words/Laws.antt =====
-- Which words parseCmd finds.
use gjworks.Common.{
  ℕ, ◌<◌, ◌≡◌, refl, sym, ap, ◌∙◌, false, List, [], ◌∷◌, ◌++◌, ◌==◌, length, All, arith, append_nil,
  append_assoc, ==_refl,
}
use gjworks.Machine.{ok}
use gjworks.Shell.Words.{tokens, end_token, drop_ampersand, fill_argv, parse_cmd}

-- A word: not empty, and without the separator.
abbrev pub IsWord : ℕ → List ℕ → Type 0
IsWord sep [] = ⊥
IsWord sep (c ∷ s) = All (λ b. (b == sep) ≡ false) (c ∷ s)

-- Words with one separator before each but the first.
abbrev pub joined : ℕ → List ℕ → List (List ℕ) → List ℕ
joined sep word [] = word
joined sep word (next ∷ words) = word ++ (sep ∷ joined sep next words)

tokens-more :
    (sep : ℕ) (word token rest : List ℕ)
    → All (λ b. (b == sep) ≡ false) word
    → tokens sep token (word ++ rest) ≡ tokens sep (token ++ word) rest
unfolding tokens
tokens-more sep [] token rest h = ap (λ t. tokens sep t rest) (sym (append_nil token))
tokens-more sep (c ∷ word) token rest (h, k) =
    rw (h, tokens-more sep word (token ++ (c ∷ [])) rest k, append_assoc token (c ∷ []) word) refl

pub tokens-joined :
    (sep : ℕ) (word : List ℕ) (words : List (List ℕ))
    → IsWord sep word
    → All (IsWord sep) words
    → tokens sep [] (joined sep word words) ≡ word ∷ words
unfolding tokens end_token
tokens-joined sep [] words h k = absurd h
tokens-joined sep (c ∷ w) [] h k =
    ap (λ s. tokens sep [] s) (sym (append_nil (c ∷ w))) ∙ tokens-more sep (c ∷ w) [] [] h
tokens-joined sep (c ∷ w) (next ∷ words) h (i, k) =
    rw
      (
        tokens-more sep (c ∷ w) [] (sep ∷ joined sep next words) h,
        ==_refl sep,
        tokens-joined sep next words i k,
      )
      refl

-- A command of one to 32 words with one space between two, of less than 1024 characters, gives
-- just those words as argv, but for a last word "&", which is dropped.
pub parse_cmd-joined :
    (word : List ℕ) (words : List (List ℕ))
    → IsWord 32 word
    → All (IsWord 32) words
    → length words < 32
    → length (joined 32 word words) < 1024
    → parse_cmd (joined 32 word words) ≡ ok (drop_ampersand (word ∷ words))
unfolding parse_cmd fill_argv
parse_cmd-joined [] words h k few short = absurd h
parse_cmd-joined (c ∷ w) [] h k few short = rw (tokens-joined 32 (c ∷ w) [] h k) (ground arith)
parse_cmd-joined (c ∷ w) (next ∷ words) h k few short =
    rw (tokens-joined 32 (c ∷ w) (next ∷ words) h k) (ground arith)
