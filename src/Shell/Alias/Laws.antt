-- ===== src/Shell/Alias/Laws.antt =====
-- What grsGetCmdAlias finds after grsSetAlias.
use gjworks.Common.{
  ℕ, ◌<◌, ◌≡◌, refl, sym, ap, ◌∙◌, true, false, List, [], ◌∷◌, ◌++◌, Option, none, some, leb,
  if◌then◌else◌, length, str_eq, Bool-cases, Option-cases, All, inl, inr, arith, append_assoc,
}
use gjworks.Machine.{ok}
use gjworks.Shell.Trim.{is_space}
use gjworks.Shell.Trim.Plain.{IsPlain}
use gjworks.Shell.Words.Laws.{IsWord, joined, tokens-joined}
use gjworks.Shell.Alias.{
  FileState, contents, fgets_lines, pair_of, find_alias, get_cmd_alias, append_alias, write_alias,
  set_alias,
}
use gjworks.Shell.Alias.Lines.{
  IsEnded, fgets_lines-append, fgets_lines-line, plain-Other, IsPlain-joined, pair_of-line,
}

-- The first value there is.
abbrev pub or_else : Option (List ℕ) → Option (List ℕ) → Option (List ℕ)
or_else none o = o
or_else (some v) o = some v

find_alias-append :
    (cmd : List ℕ) (l m : List (List ℕ))
    → find_alias cmd (l ++ m) ≡ or_else (find_alias cmd l) (find_alias cmd m)
unfolding find_alias
find_alias-append cmd [] m = refl
find_alias-append cmd (line ∷ l) m = elim (Option-cases (pair_of line)) [
  | inl e ↦ rw (find_alias, e) (find_alias-append cmd l m)
  | inr (p, e) ↦
      rw (find_alias, e)
        (elim (Bool-cases (str_eq cmd p.0)) [
          | inl f ↦ rw (f) refl
          | inr f ↦ rw (f) (find_alias-append cmd l m)
        ])
]

find_alias-one :
    (cmd line name value : List ℕ)
    → pair_of line ≡ some (name, value)
    → find_alias cmd (line ∷ []) ≡ (if str_eq cmd name then some value else none)
unfolding find_alias
find_alias-one cmd line name value e = rw (find_alias, e) refl

pub IsEnded-line : (w : List ℕ) → IsEnded (w ++ (10 ∷ []))
IsEnded-line [] = refl
IsEnded-line (c ∷ []) = refl
IsEnded-line (c ∷ (d ∷ w)) = IsEnded-line (d ∷ w)

IsEnded-append : (s w : List ℕ) → IsEnded (s ++ (w ++ (10 ∷ [])))
IsEnded-append s w = rw (sym (append_assoc s w (10 ∷ []))) (IsEnded-line (s ++ w))

-- argv[0] after the lookup.
abbrev pub or_name : List ℕ → Option (List ℕ) → List ℕ
or_name cmd none = cmd
or_name cmd (some value) = value

pub get_cmd_alias-contents :
    (s : List ℕ) (here : FileState) (cmd : List ℕ) (args : List (List ℕ))
    → get_cmd_alias (contents s) here (cmd ∷ args)
      ≡ ok (or_name cmd (find_alias cmd (fgets_lines 1023 [] s)) ∷ args)
unfolding get_cmd_alias
get_cmd_alias-contents s here cmd args =
    elim (Option-cases (find_alias cmd (fgets_lines 1023 [] s))) [
      | inl e ↦ rw (get_cmd_alias, e) refl
      | inr (v, e) ↦ rw (get_cmd_alias, e) refl
    ]

-- grsSetAlias writes the line name=value; the tokens of its argument are the two.
set_alias-joined :
    (s : List ℕ) (n : ℕ) (name : List ℕ) (v : ℕ) (value : List ℕ)
    → IsWord 61 (n ∷ name)
    → IsWord 61 (v ∷ value)
    → length (joined 61 (n ∷ name) ((v ∷ value) ∷ [])) < 1024
    → set_alias true (contents s) (some (joined 61 (n ∷ name) ((v ∷ value) ∷ [])))
      ≡ ok (contents (s ++ (joined 61 (n ∷ name) ((v ∷ value) ∷ []) ++ (10 ∷ []))))
unfolding set_alias write_alias append_alias
set_alias-joined s n name v value h k short =
    let big : leb 1024 (length (joined 61 (n ∷ name) ((v ∷ value) ∷ []))) ≡ false = ground arith in
    let line = append_assoc (n ∷ name) (61 ∷ (v ∷ value)) (10 ∷ []) in
    rw
      (
        big,
        tokens-joined 61 (n ∷ name) ((v ∷ value) ∷ []) h (k, tt),
        append_assoc name (61 ∷ (v ∷ value)) (10 ∷ []),
      )
      refl

-- What both functions need of a name and a value: no blanks, no "=", not empty, and together less
-- than the 1023 characters that fgets reads.
pub record IsAlias (name value : List ℕ) : Type 0 where
  pub name_word : IsWord 61 name
  pub value_word : IsWord 61 value
  pub name_plain : All IsPlain name
  pub value_plain : All IsPlain value
  pub short : length (joined 61 name (value ∷ [])) < 1023

-- The alias file after grsSetAlias, for a file of whole lines.
record Defined (s t : List ℕ) (name value : List ℕ) : Type 0 where
  set : set_alias true (contents s) (some (joined 61 name (value ∷ []))) ≡ ok (contents t)
  ended : IsEnded t
  found :
      (cmd : List ℕ)
      → find_alias cmd (fgets_lines 1023 [] t)
        ≡ or_else
            (find_alias cmd (fgets_lines 1023 [] s))
            (if str_eq cmd name then some value else none)

find_alias-set :
    (s name value : List ℕ) → IsEnded s → IsAlias name value → (t : List ℕ) × Defined s t name value
unfolding is_space
find_alias-set s [] value ended a = absurd a.name_word
find_alias-set s (n ∷ name) [] ended a = absurd a.value_word
find_alias-set s (n ∷ name) (v ∷ value) ended a =
    let w = joined 61 (n ∷ name) ((v ∷ value) ∷ []) in
    let plain = IsPlain-joined (n ∷ name) (v ∷ value) a.name_plain a.value_plain in
    let lines =
      fgets_lines-append s (w ++ (10 ∷ [])) ended
      ∙ ap (λ l. fgets_lines 1023 [] s ++ l)
          (fgets_lines-line w (plain-Other 10 w refl plain) a.short) in
    let pair = pair_of-line n name v value a.name_plain a.name_word a.value_plain in
    (
      s ++ (w ++ (10 ∷ [])),
      record {
        set = set_alias-joined s n name v value a.name_word a.value_word (omega (arith, a.short));
        ended = IsEnded-append s w;
        found = λ cmd.
            ap (λ l. find_alias cmd l) lines
            ∙ (find_alias-append cmd (fgets_lines 1023 [] s) ((w ++ (10 ∷ [])) ∷ [])
                ∙ ap (λ o. or_else (find_alias cmd (fgets_lines 1023 [] s)) o)
                    (find_alias-one cmd (w ++ (10 ∷ [])) (n ∷ name) (v ∷ value) pair));
      },
    )

-- After `alias name=value` on a file of whole lines, for a name and a value without blanks and
-- "=", the file is again of whole lines, and the lookup replaces argv[0] by the first of its
-- values in the old file, if it has one there, else by the value, if it is the name.
pub get_cmd_alias-set :
    (s name value cmd : List ℕ) (args : List (List ℕ)) (here : FileState)
    → IsEnded s
    → IsAlias name value
    → (t : List ℕ) × (set_alias true (contents s) (some (joined 61 name (value ∷ [])))
        ≡ ok (contents t))
      × IsEnded t
      × (get_cmd_alias (contents t) here (cmd ∷ args)
          ≡ ok (
              or_name cmd (
                or_else
                  (find_alias cmd (fgets_lines 1023 [] s))
                  (if str_eq cmd name then some value else none))
              ∷ args))
get_cmd_alias-set s name value cmd args here ended a =
    let (t, d) = find_alias-set s name value ended a in
    (
      t,
      d.set,
      d.ended,
      get_cmd_alias-contents t here cmd args ∙ ap (λ o. ok (or_name cmd o ∷ args)) (d.found cmd),
    )
