-- ===== src/Shell/CmdLoop/Laws.antt =====
-- What the loop does with lines.
use gjworks.Common.{
  ℕ, ◌+◌, ◌≤◌, ◌<◌, ◌≡◌, ◌≢◌, refl, sym, ap, ◌∙◌, false, List, [], ◌∷◌, ◌++◌, ◌==◌, leb, length,
  length-append, append_assoc, append_nil, All, inl, inr, arith, Bool-cases,
}
use gjworks.Machine.{Run, ok, fault, out_of_fuel}
use gjworks.Shell.Spawn.{System, Shell}
use gjworks.Shell.CmdLoop.{
  Ended, going, exited, replaced_by, add_char, and_then, Handlers, run_line, cmd_loop, grs_cmd_loop,
}

-- Characters that go into the buffer.
abbrev pub IsText : List ℕ → Type 0
IsText line = All (λ c. (c ≢ 10) × (c ≢ 255) × (c ≢ 0)) line

-- The lines, each with its '\n', and then the rest.
abbrev pub typed : List (List ℕ) → List ℕ → List ℕ
typed [] rest = rest
typed (line ∷ lines) rest = line ++ (10 ∷ typed lines rest)

module _ {W : Type 0} (sys : System W) (handlers : Handlers W) where
  and_then_assoc :
      (r : Run (Ended W)) (f g : Shell W → Run (Ended W))
      → and_then r (λ t. and_then (f t) g) ≡ and_then (and_then r f) g
  and_then_assoc (ok (going s)) f g = refl
  and_then_assoc (ok exited) f g = refl
  and_then_assoc (ok replaced_by) f g = refl
  and_then_assoc fault f g = refl
  and_then_assoc out_of_fuel f g = refl

  and_then_going : (r : Run (Ended W)) → and_then r (λ t. ok (going t)) ≡ r
  and_then_going (ok (going s)) = refl
  and_then_going (ok exited) = refl
  and_then_going (ok replaced_by) = refl
  and_then_going fault = refl
  and_then_going out_of_fuel = refl

  -- The lines one after another, until one leaves the shell.
  unfoldable pub run_lines : List (List ℕ) → Shell W → Run (Ended W)
  run_lines [] s = ok (going s)
  run_lines (line ∷ lines) s = and_then (run_line sys handlers line s) (λ t. run_lines lines t)

  -- A line is read into the buffer.
  cmd_loop-text :
      (line rest buf : List ℕ) (s : Shell W)
      → IsText line
      → length buf + length line ≤ 99
      → cmd_loop sys handlers (line ++ (10 ∷ rest)) buf s
        ≡ and_then (run_line sys handlers (buf ++ line) s) (λ t. cmd_loop sys handlers rest [] t)
  unfolding cmd_loop add_char
  cmd_loop-text [] rest buf s h le =
      ap (λ b. and_then (run_line sys handlers b s) (λ t. cmd_loop sys handlers rest [] t))
        (sym (append_nil buf))
  cmd_loop-text (c ∷ line) rest buf s ((a, b, z), h) le =
      let ih =
        cmd_loop-text line rest (buf ++ (c ∷ [])) s h (omega (arith, length-append buf (c ∷ []))) in
      let e = append_assoc buf (c ∷ []) line in
      let room : leb 99 (length buf) ≡ false = ground arith in
      let not_line : (c == 10) ≡ false = ground arith in
      let not_eof : (c == 255) ≡ false = ground arith in
      let not_nul : (c == 0) ≡ false = ground arith in
      rw (not_line, not_eof, not_nul, room)
        (ih
          ∙ ap (λ b. and_then (run_line sys handlers b s) (λ t. cmd_loop sys handlers rest [] t)) e)

  -- and_then, where the lines after it are run in another way.
  and_then-same :
      (r : Run (Ended W)) (f g : Shell W → Run (Ended W))
      → ((s : Shell W) → f s ≡ g s)
      → and_then r f ≡ and_then r g
  and_then-same (ok (going s)) f g h = h s
  and_then-same (ok exited) f g h = refl
  and_then-same (ok replaced_by) f g h = refl
  and_then-same fault f g h = refl
  and_then-same out_of_fuel f g h = refl

  cmd_loop-typed :
      (lines : List (List ℕ)) (rest : List ℕ) (s : Shell W)
      → All (λ line. IsText line × (length line ≤ 99)) lines
      → cmd_loop sys handlers (typed lines rest) [] s
        ≡ and_then (run_lines lines s) (λ t. cmd_loop sys handlers rest [] t)
  unfolding run_lines
  cmd_loop-typed [] rest s h = refl
  cmd_loop-typed (line ∷ lines) rest s ((text, le), h) =
      cmd_loop-text line (typed lines rest) [] s text (omega (arith, le))
      ∙ (and_then-same (run_line sys handlers line s)
            (λ t. cmd_loop sys handlers (typed lines rest) [] t)
            (λ t. and_then (run_lines lines t) (λ u. cmd_loop sys handlers rest [] u))
            (λ t. cmd_loop-typed lines rest t h)
          ∙ and_then_assoc (run_line sys handlers line s) (run_lines lines)
              (λ u. cmd_loop sys handlers rest [] u))

  -- A line that does not fit.
  cmd_loop-long :
      (line rest buf : List ℕ) (s : Shell W)
      → IsText line
      → length buf ≤ 99
      → 99 < length buf + length line
      → cmd_loop sys handlers (line ++ rest) buf s ≡ fault
  unfolding cmd_loop add_char
  cmd_loop-long [] rest buf s h le lt = absurd (omega arith)
  cmd_loop-long (c ∷ line) rest buf s ((a, b, z), h) le lt =
      let not_line : (c == 10) ≡ false = ground arith in
      let not_eof : (c == 255) ≡ false = ground arith in
      let not_nul : (c == 0) ≡ false = ground arith in
      elim (Bool-cases (leb 99 (length buf))) [
        | inl full ↦ rw (not_line, not_eof, not_nul, full) refl
        | inr room ↦
            rw (not_line, not_eof, not_nul, room)
              (cmd_loop-long line rest (buf ++ (c ∷ [])) s h
                (ground (arith, length-append buf (c ∷ []), room))
                (omega (arith, length-append buf (c ∷ []))))
      ]

  -- The shell runs the lines of its input one after another, until one of them leaves it, if they
  -- have at most 99 characters, none of which is NUL, '\n' or 255. After them, with nothing left,
  -- the loop returns; and where a line of 100 such characters or more follows, the buffer is left,
  -- unless the shell is. The uninitialised grsCharInput is not 255.
  pub grs_cmd_loop-run_lines :
      (unset : ℕ) (lines : List (List ℕ)) (long rest : List ℕ) (s : Shell W)
      → unset ≢ 255
      → All (λ line. IsText line × (length line ≤ 99)) lines
      → IsText long
      → 99 < length long
      → (grs_cmd_loop sys handlers unset (typed lines []) s ≡ run_lines lines s)
        × (grs_cmd_loop sys handlers unset (typed lines (long ++ rest)) s
            ≡ and_then (run_lines lines s) (λ t. fault))
  unfolding grs_cmd_loop cmd_loop add_char
  grs_cmd_loop-run_lines unset lines long rest s ne h text over =
      let set : (unset == 255) ≡ false = ground arith in
      (
        rw (set) (cmd_loop-typed lines [] s h ∙ and_then_going (run_lines lines s)),
        rw (set) (
            cmd_loop-typed lines (long ++ rest) s h
            ∙ and_then-same (run_lines lines s) _ (λ t. fault)
                (λ t. cmd_loop-long long rest [] t text (omega arith) (omega (arith, over)))),
      )
