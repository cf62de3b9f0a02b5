-- ===== src/Shell/Parser/Lines.antt =====
-- A line as it is written, and what grsFillCmd makes of it.
use gjworks.Common.{
  ℕ, zero, suc, ◌-◌, ◌≤◌, ◌≡◌, refl, ap, ◌∙◌, Bool, true, false, ◌||◌, List, [], ◌∷◌, ◌++◌, ◌==◌,
  length, All, arith, map,
}
use gjworks.Machine.{ok}
use gjworks.Shell.Parser.{Flags, clear_flags, is_separator, raise, is_empty, strip_one, fill_cmd}
use gjworks.Shell.Parser.Laws.{
  IsPlain, skip_blank, line_of, IsCommand, raise_all, last_command, fill_cmd-pieces,
}

-- `n` spaces before `s`.
abbrev pub spaces : ℕ → List ℕ → List ℕ
spaces zero s = s
spaces (suc n) s = 32 ∷ spaces n s

abbrev pub among : ℕ → List ℕ → Bool
among c [] = false
among c (d ∷ s) = (c == d) || among c s

-- & | > < ;
abbrev pub separators : List ℕ
separators = 38 ∷ 124 ∷ 62 ∷ 60 ∷ 59 ∷ []

abbrev pub WithoutSeparators : List ℕ → Type 0
WithoutSeparators s = All (λ c. among c separators ≡ false) s

-- Empty, or begun by a character that is no space.
abbrev pub StartsFull : List ℕ → Type 0
StartsFull [] = Unit
StartsFull (c ∷ s) = (c == 32) ≡ false

-- The last character is no space.
abbrev pub EndsFull : List ℕ → Type 0
EndsFull [] = ⊥
EndsFull (c ∷ []) = (c == 32) ≡ false
EndsFull (c ∷ d ∷ s) = EndsFull (d ∷ s)

-- A command in a line: spaces, a body, spaces, and the separator.
pub record Command : Type 0 where
  pub before : ℕ
  pub body : List ℕ
  pub after : ℕ
  pub separator : ℕ

abbrev pub written : Command → List ℕ
written e = spaces e.before (e.body ++ spaces e.after [])

pub record IsGood (e : Command) : Type 0 where
  pub plain : WithoutSeparators (written e)
  pub short : length (written e) ≤ 99
  pub starts : StartsFull e.body
  pub ends : EndsFull e.body
  pub separates : among e.separator separators ≡ true

-- The body with the spaces behind it but one.
abbrev pub stored : Command → List ℕ
stored e = e.body ++ spaces (e.after - 1) []

abbrev pub flags_of : List ℕ → Flags
flags_of cs = record {
  pipe = among 124 cs;
  redir_out = among 62 cs;
  redir_in = among 60 cs;
  background = among 38 cs;
  if_then_else = among 59 cs;
}

is_separator-among : (c : ℕ) → is_separator c ≡ among c separators
unfolding is_separator
is_separator-among c = ground arith

IsPlain-WithoutSeparators : (s : List ℕ) → WithoutSeparators s → IsPlain s
IsPlain-WithoutSeparators [] h = tt
IsPlain-WithoutSeparators (c ∷ s) (h, k) = (is_separator-among c ∙ h, IsPlain-WithoutSeparators s k)

skip_blank-spaces : (n : ℕ) (s : List ℕ) → StartsFull s → skip_blank (spaces n s) ≡ s
skip_blank-spaces zero [] h = refl
skip_blank-spaces zero (c ∷ s) h = rw (h) refl
skip_blank-spaces (suc n) s h = skip_blank-spaces n s h

strip_one-spaces : (n : ℕ) → strip_one (spaces (suc n) []) ≡ spaces n []
unfolding strip_one
strip_one-spaces zero = refl
strip_one-spaces (suc n) = ap (◌∷◌ 32) (strip_one-spaces n)

strip_one-body :
    (s : List ℕ) (n : ℕ) → EndsFull s → strip_one (s ++ spaces n []) ≡ s ++ spaces (n - 1) []
unfolding strip_one
strip_one-body [] n h = absurd h
strip_one-body (c ∷ []) zero h = rw (h) refl
strip_one-body (c ∷ []) (suc n) h =
    let less : suc n - 1 ≡ n = omega arith in rw (less) (ap (◌∷◌ c) (strip_one-spaces n))
strip_one-body (c ∷ d ∷ s) n h = ap (◌∷◌ c) (strip_one-body (d ∷ s) n h)

-- The command as grsFillCmd meets it.
abbrev pub piece : Command → List ℕ × ℕ
piece e = (written e, e.separator)

skip_blank-written : (e : Command) → IsGood e → skip_blank (written e) ≡ e.body ++ spaces e.after []
skip_blank-written e g =
    skip_blank-spaces e.before (e.body ++ spaces e.after []) (full e.body g.starts g.ends)
  where
    full : (s : List ℕ) → StartsFull s → EndsFull s → StartsFull (s ++ spaces e.after [])
    full [] h k = absurd k
    full (c ∷ s) h k = h

IsCommand-IsGood : (e : Command) → IsGood e → IsCommand (piece e)
IsCommand-IsGood e g = (
  IsPlain-WithoutSeparators (written e) g.plain,
  (
    g.short,
    (
      ap is_empty (skip_blank-written e g) ∙ begun e.body g.ends,
      is_separator-among e.separator ∙ g.separates,
    ),
  ),
)
  where
    begun : (s : List ℕ) → EndsFull s → is_empty (s ++ spaces e.after []) ≡ false
    begun [] k = absurd k
    begun (c ∷ s) k = refl

commands-stored :
    (es : List Command)
    → All IsGood es
    → (All IsCommand (map piece es))
      × (map (λ e. strip_one (skip_blank e.0)) (map piece es) ≡ map stored es)
commands-stored [] h = (tt, refl)
commands-stored (e ∷ es) (g, h) =
    let (all, same) = commands-stored es h in
    let one : strip_one (skip_blank (written e)) ≡ stored e =
      ap strip_one (skip_blank-written e g) ∙ strip_one-body e.body e.after g.ends in
    ((IsCommand-IsGood e g, all), λ i. one i ∷ same i)

pieces-length : (es : List Command) → length (map piece es) ≡ length es
pieces-length [] = refl
pieces-length (e ∷ es) = ap suc (pieces-length es)

pieces-separators : (es : List Command) → map (λ e. e.1) (map piece es) ≡ map (λ e. e.separator) es
pieces-separators [] = refl
pieces-separators (e ∷ es) = ap (◌∷◌ e.separator) (pieces-separators es)

-- A line: the commands, and spaces and a part behind the last separator.
abbrev pub line : List Command → ℕ → List ℕ → List ℕ
line es n last = line_of (map piece es) (spaces n last)

-- The flags of some separators, over those that are set.
abbrev more_flags : List ℕ → Flags → Flags
more_flags cs f = record {
  pipe = among 124 cs || f.pipe;
  redir_out = among 62 cs || f.redir_out;
  redir_in = among 60 cs || f.redir_in;
  background = among 38 cs || f.background;
  if_then_else = among 59 cs || f.if_then_else;
}

moved : (c d : ℕ) (b e : Bool) → (b || ((c == d) || e)) ≡ (((d == c) || b) || e)
moved c d b e = ground arith

raise-more_flags :
    (cs : List ℕ) (c : ℕ) (f : Flags) → more_flags cs (raise c f) ≡ more_flags (c ∷ cs) f
unfolding raise
raise-more_flags cs c f = λ i. record {
  pipe = moved c 124 (among 124 cs) f.pipe i;
  redir_out = moved c 62 (among 62 cs) f.redir_out i;
  redir_in = moved c 60 (among 60 cs) f.redir_in i;
  background = moved c 38 (among 38 cs) f.background i;
  if_then_else = moved c 59 (among 59 cs) f.if_then_else i;
}

raise_all-more_flags :
    (ps : List (List ℕ × ℕ)) (f : Flags) → raise_all ps f ≡ more_flags (map (λ e. e.1) ps) f
raise_all-more_flags [] f = refl
raise_all-more_flags ((p, c) ∷ ps) f =
    raise_all-more_flags ps (raise c f) ∙ raise-more_flags (map (λ e. e.1) ps) c f

clear-more_flags : (cs : List ℕ) → more_flags cs clear_flags ≡ flags_of cs
clear-more_flags cs = λ i. record {
  pipe = or_false (among 124 cs) i;
  redir_out = or_false (among 62 cs) i;
  redir_in = or_false (among 60 cs) i;
  background = or_false (among 38 cs) i;
  if_then_else = or_false (among 59 cs) i;
}
  where
    or_false : (b : Bool) → (b || false) ≡ b
    or_false true = refl
    or_false false = refl

-- A line of at most 99 commands, each with spaces before and after it and its separator behind, and
-- of spaces and a part behind the last separator that has none, each of at most 99 characters with its
-- spaces, and no command empty: grsFillCmd stores each command without the spaces before it and with
-- one less, if there is one, of those behind it, and then the last part without the spaces before it,
-- unless it is empty; and of the flags it sets that of | if this is one of the separators, and so
-- those of >, <, & and ;.
pub fill_cmd-line :
    (es : List Command) (n : ℕ) (last : List ℕ)
    → All IsGood es
    → WithoutSeparators (spaces n last)
    → StartsFull last
    → length (spaces n last) ≤ 99
    → length es ≤ 99
    → fill_cmd (line es n last) clear_flags
      ≡ ok (map stored es ++ last_command last, flags_of (map (λ e. e.separator) es))
fill_cmd-line es n last a h f l m =
    let (all, same) = commands-stored es a in
    fill_cmd-pieces (map piece es) (spaces n last) all (IsPlain-WithoutSeparators (spaces n last) h)
      l (omega (arith, pieces-length es, m))
    ∙ (λ i. ok (
      same i ++ last_command (skip_blank-spaces n last f i),
      (raise_all-more_flags (map piece es) clear_flags
            ∙ clear-more_flags (map (λ e. e.1) (map piece es))
            ∙ ap flags_of (pieces-separators es))
          i,
    ))
