-- ===== src/Shell/Redirection.antt =====
-- Minix_shell/GRS_Source_Code/grsRedirection.c, and the start of grsPipes.c. A table gives the file
-- that each descriptor is open on, with 0 for none; the system calls on files are parameters.
pub mod Laws
use gjworks.Common.{
  ℕ, zero, suc, ◌≤◌, ◌<◌, ◌≡◌, ◌≢◌, refl, sym, ap, ◌∙◌, Bool, true, false, List, [], ◌∷◌, Option,
  none, some, ◌==◌, ==_refl, ==_other, ltb, leb, if◌then◌else◌, get_elem?, Bool-cases, Option-cases,
  inl, inr, arith,
}
use gjworks.Machine.{Run, ok, fault, ◌>>=◌}

abbrev pub Fds : Type 0
Fds = ℕ → ℕ

abbrev pub set_fd : Fds → ℕ → ℕ → Fds
set_fd t a f q = if a == q then f else t q

-- `dup(a)`, where `lowest` is the descriptor that a new file gets.
unfoldable pub dup : (Fds → ℕ) → Fds → ℕ → Fds × Option ℕ
dup lowest t a = if t a == 0 then (t, none) else (set_fd t (lowest t) (t a), some (lowest t))

-- `dup2(a, b)`; `none` is -1.
unfoldable pub dup2 : Fds → Option ℕ → ℕ → Fds
dup2 t none b = t
dup2 t (some a) b = if t a == 0 then t else set_fd t b (t a)

unfoldable pub close : Fds → Option ℕ → Fds
close t none = t
close t (some a) = set_fd t a 0

-- -1 as an `int`, and the test `status < 0`
abbrev pub is_negative : ℕ → Bool
is_negative status = leb 2147483648 status

-- What the calls do to the rest of the system, of type W: open or fopen, which gives a file that
-- is not 0, or fails; grsSpawnProcess with its result, in a shell of these descriptors; and the
-- descriptor that a new file gets.
module _ {W : Type 0} (open_file : Option (List ℕ) → W → Option ℕ × W)
    (spawn : Option (List ℕ) → Fds → W → ℕ × W) (lowest : Fds → ℕ) where
  -- With the file open as `f`, and the old descriptor `b` saved.
  unfoldable pub run_with : ℕ → Option (List ℕ) → Option ℕ → ℕ → Fds → W → ℕ × Fds × W
  run_with b cmd saved f t w =
      let fd = lowest t in
      let u = dup2 (set_fd t fd f) (some fd) b in
      let u' = close u (some fd) in
      let (status, w') = spawn cmd u' w in
      let u'' = close (dup2 u' saved b) saved in
      (if is_negative status then 4294967295 else 0, u'', w')

  -- Both functions, for the descriptor `b`: the result, the descriptors, and the rest.
  unfoldable pub redirect_to : ℕ → Option (List ℕ) → Option (List ℕ) → Fds → W → ℕ × Fds × W
  redirect_to b cmd filename t w =
      let (u, saved) = dup lowest t b in
      let (file, w') = open_file filename w in
      elim file [ none ↦ (4294967295, u, w') | some f ↦ run_with b cmd saved f u w' ]

  -- grsRedirectonHandle, for ">" and "<", and its two functions
  unfoldable pub grs_output_redirect : List (List ℕ) → Fds → W → ℕ × Fds × W
  unfolding redirect_to run_with dup dup2 close
  grs_output_redirect cmd t w = redirect_to 1 (get_elem? cmd 0) (get_elem? cmd 1) t w

  unfoldable pub grs_input_redirect : List (List ℕ) → Fds → W → ℕ × Fds × W
  unfolding redirect_to run_with dup dup2 close
  grs_input_redirect cmd t w = redirect_to 0 (get_elem? cmd 0) (get_elem? cmd 1) t w

  unfoldable pub redirection_handle : List (List ℕ) → ℕ → Fds → W → ℕ × Fds × W
  unfolding grs_output_redirect grs_input_redirect
  redirection_handle cmd redirect t w =
      if redirect == 62
      then (let r = grs_output_redirect cmd t w in (0, r.1, r.2))
      else if redirect == 60
      then (let r = grs_input_redirect cmd t w in (0, r.1, r.2))
      else (4294967295, t, w)

-- grsPipeHandle: for two commands or more, the first strcat writes to the string literal " ".
unfoldable pub pipe_handle : ℕ → Run ℕ
pipe_handle cmdlen = if ltb cmdlen 2 then ok 4294967295 else fault
