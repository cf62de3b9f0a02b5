-- ===== src/Shell/Parser/Laws.antt =====
-- What grsFillCmd makes of a line: the commands between the separators.
use gjworks.Common.{
  ℕ, ◌+◌, ◌≤◌, ◌≡◌, refl, sym, ap, ◌∙◌, true, false, List, [], ◌∷◌, ◌++◌, ◌==◌, leb, if◌then◌else◌,
  length, str_eq, Bool-cases, All, inl, inr, arith, map, length-append, append_nil, append_assoc,
}
use gjworks.Machine.{ok, fault, ◌>>=◌}
use gjworks.Shell.Parser.{
  Flags, clear_flags, is_separator, raise, is_empty, strip_one, put, fill, fill_cmd, enter,
  first_command, exit_shell, cmd_exec,
}

abbrev pub IsPlain : List ℕ → Type 0
IsPlain p = All (λ c. is_separator c ≡ false) p

-- The spaces at the front taken off.
abbrev pub skip_blank : List ℕ → List ℕ
skip_blank [] = []
skip_blank (c ∷ s) = if c == 32 then skip_blank s else c ∷ s

not_empty : (tmp : List ℕ) (c : ℕ) → is_empty (tmp ++ (c ∷ [])) ≡ false
not_empty [] c = refl
not_empty (d ∷ tmp) c = refl

-- Plain characters go to the end of a command that has begun.
fill-more :
    (p rest tmp : List ℕ) (bufs : List (List ℕ)) (f : Flags)
    → IsPlain p
    → is_empty tmp ≡ false
    → length tmp + length p ≤ 99
    → fill (p ++ rest) tmp bufs f ≡ fill rest (tmp ++ p) bufs f
unfolding fill
fill-more [] rest tmp bufs f h e l = ap (λ t. fill rest t bufs f) (sym (append_nil tmp))
fill-more (c ∷ p) rest tmp bufs f (h, k) e l =
    let room : leb 99 (length tmp) ≡ false = ground arith in
    rw (h, e, room)
      (fill-more p rest (tmp ++ (c ∷ [])) bufs f k (not_empty tmp c)
          (omega (arith, length-append tmp (c ∷ [])))
        ∙ ap (λ t. fill rest t bufs f) (append_assoc tmp (c ∷ []) p))

-- From the start of a command the spaces are skipped.
fill-start :
    (p rest : List ℕ) (bufs : List (List ℕ)) (f : Flags)
    → IsPlain p
    → length p ≤ 99
    → fill (p ++ rest) [] bufs f ≡ fill rest (skip_blank p) bufs f
unfolding fill
fill-start [] rest bufs f h l = refl
fill-start (c ∷ p) rest bufs f (h, k) l = elim (Bool-cases (c == 32)) [
  | inl e ↦ rw (h, e) (fill-start p rest bufs f k (omega arith))
  | inr e ↦ rw (h, e) (fill-more p rest (c ∷ []) bufs f k refl (omega arith))
]

-- A line: commands, each with the separator behind it, and what is behind the last separator.
abbrev pub line_of : List (List ℕ × ℕ) → List ℕ → List ℕ
line_of [] last = last
line_of ((p, c) ∷ ps) last = p ++ (c ∷ line_of ps last)

-- A command that grsFillCmd can take, and its separator.
abbrev pub IsCommand : List ℕ × ℕ → Type 0
IsCommand e =
    IsPlain e.0
    × ((length e.0 ≤ 99) × ((is_empty (skip_blank e.0) ≡ false) × (is_separator e.1 ≡ true)))

abbrev pub raise_all : List (List ℕ × ℕ) → Flags → Flags
raise_all [] f = f
raise_all ((p, c) ∷ ps) f = raise_all ps (raise c f)

abbrev pub last_command : List ℕ → List (List ℕ)
last_command s = if is_empty s then [] else s ∷ []

fill-end :
    (tmp : List ℕ) (bufs : List (List ℕ)) (f : Flags)
    → length bufs ≤ 99
    → fill [] tmp bufs f ≡ ok (bufs ++ last_command tmp, f)
unfolding fill put
fill-end [] bufs f n = ap (λ t. ok (t, f)) (sym (append_nil bufs))
fill-end (c ∷ tmp) bufs f n = ground (arith, n)

fill-cut :
    (c : ℕ) (s tmp : List ℕ) (bufs : List (List ℕ)) (f : Flags)
    → is_separator c ≡ true
    → is_empty tmp ≡ false
    → length bufs ≤ 99
    → fill (c ∷ s) tmp bufs f ≡ fill s [] (bufs ++ (strip_one tmp ∷ [])) (raise c f)
unfolding fill put
fill-cut c s tmp bufs f g e n =
    let room : leb 100 (length bufs) ≡ false = ground arith in rw (g, e, room) refl

fill-line :
    (ps : List (List ℕ × ℕ)) (last : List ℕ) (bufs : List (List ℕ)) (f : Flags)
    → All IsCommand ps
    → IsPlain last
    → length last ≤ 99
    → length bufs + length ps ≤ 99
    → fill (line_of ps last) [] bufs f
      ≡ ok (
        bufs ++ (map (λ e. strip_one (skip_blank e.0)) ps ++ last_command (skip_blank last)),
        raise_all ps f,
      )
unfolding fill
fill-line [] last bufs f a h l n =
    ap (λ s. fill s [] bufs f) (sym (append_nil last))
    ∙ fill-start last [] bufs f h l
    ∙ fill-end (skip_blank last) bufs f (omega arith)
fill-line ((p, c) ∷ ps) last bufs f ((q, (m, (e, g))), a) h l n =
    let cmd = strip_one (skip_blank p) in
    let room : leb 100 (length bufs) ≡ false = ground arith in
    let next : fill (line_of ps last) [] (bufs ++ (cmd ∷ [])) (raise c f)
        ≡ ok (
          (bufs ++ (cmd ∷ []))
              ++ (map (λ e. strip_one (skip_blank e.0)) ps ++ last_command (skip_blank last)),
          raise_all ps (raise c f),
        ) =
      fill-line ps last (bufs ++ (cmd ∷ [])) (raise c f) a h l
        (omega (arith, length-append bufs (cmd ∷ []))) in
    fill-start p (c ∷ line_of ps last) bufs f q m
    ∙ fill-cut c (line_of ps last) (skip_blank p) bufs f g e (omega arith)
    ∙ next
    ∙ ap (λ t. ok (t, raise_all ps (raise c f))) (append_assoc bufs (cmd ∷ []) _)

-- A whole line, by its pieces.
pub fill_cmd-pieces :
    (ps : List (List ℕ × ℕ)) (last : List ℕ)
    → All IsCommand ps
    → IsPlain last
    → length last ≤ 99
    → length ps ≤ 99
    → fill_cmd (line_of ps last) clear_flags
      ≡ ok (
        map (λ e. strip_one (skip_blank e.0)) ps ++ last_command (skip_blank last),
        raise_all ps clear_flags,
      )
unfolding fill_cmd
fill_cmd-pieces ps last a h l n = fill-line ps last [] clear_flags a h l (omega (arith, n))

-- A separator with only spaces before it makes grsFillCmd read in front of its array.
pub fill_cmd-blank :
    (spaces : List ℕ) (c : ℕ) (rest : List ℕ) (f : Flags)
    → IsPlain spaces
    → length spaces ≤ 99
    → is_empty (skip_blank spaces) ≡ true
    → is_separator c ≡ true
    → fill_cmd (spaces ++ (c ∷ rest)) f ≡ fault
unfolding fill_cmd fill
fill_cmd-blank spaces c rest f h l e g = fill-start spaces (c ∷ rest) [] f h l ∙ rw (g, e) refl

alone :
    (cmd : List ℕ)
    → (first_command (last_command cmd) >>= λ c.
        ok (if str_eq c (101 ∷ 120 ∷ 105 ∷ 116 ∷ []) then exit_shell else cmd_exec c))
      ≡ (if is_empty cmd
          then fault
          else ok (if str_eq cmd (101 ∷ 120 ∷ 105 ∷ 116 ∷ []) then exit_shell else cmd_exec cmd))
unfolding first_command
alone [] = refl
alone (c ∷ cmd) = refl

-- A line without separators is run as one command, or leaves the shell when it is "exit"; one of
-- spaces only is undefined, since it hands NULL to strcmp.
pub enter-plain :
    (line : List ℕ)
    → IsPlain line
    → length line ≤ 99
    → enter line ≡ (
        if is_empty (skip_blank line)
        then fault
        else ok (
            if str_eq (skip_blank line) (101 ∷ 120 ∷ 105 ∷ 116 ∷ [])
            then exit_shell
            else cmd_exec (skip_blank line)))
unfolding enter first_command
enter-plain line h l = rw (fill_cmd-pieces [] line tt h l (omega arith)) (alone (skip_blank line))
