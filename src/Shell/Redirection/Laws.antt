-- ===== src/Shell/Redirection/Laws.antt =====
-- Which descriptors redirection leaves.
use gjworks.Common.{
  ℕ, ◌≡◌, ◌≢◌, refl, ap, ◌∙◌, List, Option, none, some, ==_other, if◌then◌else◌, arith,
}
use gjworks.Shell.Redirection.{is_negative, Fds, set_fd, dup2, close, dup, run_with, redirect_to}

dup2-open : (t : Fds) (a b f : ℕ) → t a ≡ f → f ≢ 0 → dup2 t (some a) b ≡ set_fd t b f
unfolding dup2
dup2-open t a b f e nz = rw (e, ==_other f 0 nz) refl

dup-held :
    (lowest : Fds → ℕ) (t : Fds) (b : ℕ)
    → t b ≢ 0
    → dup lowest t b ≡ (set_fd t (lowest t) (t b), some (lowest t))
unfolding dup
dup-held lowest t b held = rw (==_other (t b) 0 held) refl

module _ {W : Type 0} (open_file : Option (List ℕ) → W → Option ℕ × W)
    (spawn : Option (List ℕ) → Fds → W → ℕ × W) (lowest : Fds → ℕ) (b : ℕ)
    (cmd filename : Option (List ℕ)) (t : Fds) (w : W) where
  -- The table with the saved copy.
  abbrev pub with_copy : Fds
  with_copy = set_fd t (lowest t) (t b)

  -- The descriptors of the command, whose file is `f`.
  abbrev pub inner : ℕ → Fds
  inner f =
      let u = set_fd t (lowest t) (t b) in set_fd (set_fd (set_fd u (lowest u) f) b f) (lowest u) 0

  abbrev pub outer : ℕ → Fds
  outer f = set_fd (set_fd (inner f) b (t b)) (lowest t) 0

  inner-saved :
      (f : ℕ)
      → t b ≢ 0
      → t (lowest t) ≡ 0
      → with_copy (lowest with_copy) ≡ 0
      → inner f (lowest t) ≡ t b
  inner-saved f held c d = ground (arith, c, d)

  run_with-inner :
      (f : ℕ) (w' : W)
      → t b ≢ 0
      → t (lowest t) ≡ 0
      → with_copy (lowest with_copy) ≡ 0
      → f ≢ 0
      → run_with open_file spawn lowest b cmd (some (lowest t)) f (set_fd t (lowest t) (t b)) w' ≡ (
        if is_negative (spawn cmd (inner f) w').0 then 4294967295 else 0,
        outer f,
        (spawn cmd (inner f) w').1,
      )
  unfolding run_with close
  run_with-inner f w' held c d nz =
      let u = set_fd t (lowest t) (t b) in
      let here : set_fd u (lowest u) f (lowest u) ≡ f = ground arith in
      rw
        (
          dup2-open (set_fd u (lowest u) f) (lowest u) b f here nz,
          dup2-open (inner f) (lowest t) b (t b) (inner-saved f held c d) held,
        )
        refl

  redirect_to-run_with :
      (f : ℕ)
      → t b ≢ 0
      → (open_file filename w).0 ≡ some f
      → redirect_to open_file spawn lowest b cmd filename t w
        ≡ run_with open_file spawn lowest b cmd
            (some (lowest t))
            f
            (set_fd t (lowest t) (t b))
            (open_file filename w).1
  unfolding redirect_to
  redirect_to-run_with f held e = rw (redirect_to, e, dup-held lowest t b held) refl

  -- With the descriptor open, a closed one for each new file, and the file opened, the command
  -- runs with the file on it, its other descriptors being the shell's but for the saved copy;
  -- after it every descriptor of the shell is on the file that it was on before.
  pub redirect_to-restored :
      (f : ℕ)
      → t b ≢ 0
      → t (lowest t) ≡ 0
      → with_copy (lowest with_copy) ≡ 0
      → f ≢ 0
      → (open_file filename w).0 ≡ some f
      → let r = redirect_to open_file spawn lowest b cmd filename t w in
        (u : Fds) × (u b ≡ f)
        × ((q : ℕ) → q ≢ b → q ≢ lowest t → u q ≡ t q)
        × (r.2 ≡ (spawn cmd u (open_file filename w).1).1)
        × ((q : ℕ) → r.1 q ≡ t q)
  redirect_to-restored f held c d nz e =
      let run =
        redirect_to-run_with f held e ∙ run_with-inner f (open_file filename w).1 held c d nz in
      let u = set_fd t (lowest t) (t b) in
      (
        inner f,
        ground (arith, c, d),
        (λ q ne ne'. ground (arith, c, d)),
        ap (λ r. r.2) run,
        λ q. ap (λ r. r.1 q) run ∙ ground (arith, c, d),
      )

  -- When the file cannot be opened the result is -1, the command does not run, and the saved copy
  -- of the descriptor stays open for good.
  pub redirect_to-leaks :
      t b ≢ 0
      → (open_file filename w).0 ≡ none
      → let r = redirect_to open_file spawn lowest b cmd filename t w in
        (r.0 ≡ 4294967295)
        × (r.1 (lowest t) ≡ t b)
        × ((q : ℕ) → q ≢ lowest t → r.1 q ≡ t q)
        × (r.2 ≡ (open_file filename w).1)
  unfolding redirect_to
  redirect_to-leaks held e =
      rw (redirect_to, e, dup-held lowest t b held)
        (refl, ground arith, (λ q ne. ground arith), refl)
