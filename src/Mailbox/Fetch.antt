-- ===== src/Mailbox/Fetch.antt =====
-- mailbox.c: fetchMessage, and the buffers that it fills.
pub mod Laws
pub mod State
use gjworks.Common.{
  ℕ, zero, suc, ◌-◌, ◌^◌, Bool, ◌&&◌, not, List, [], ◌∷◌, Option, none, some, ltb, ◌==◌, get_elem?,
  if◌then◌else◌,
}
use gjworks.Machine.{Run, ok, fault, ◌>>=◌}
use gjworks.Mailbox.State.{
  Pm, World, Reply, value, egeneric, emsgsize, einval, emsgempty, max_message_length,
}

-- Tests on an `int`, by its 32-bit pattern.
abbrev pub positive : ℕ → Bool
positive x = ltb 0 x && ltb x (2 ^ 31)

abbrev pub longer_than : ℕ → ℕ → Bool
longer_than bound x = ltb bound x && ltb x (2 ^ 31)

-- A copy into an array, from its start: undefined if there are more elements than places.
unfoldable pub write_array : List ℕ → List ℕ → Run (List ℕ)
write_array array [] = ok array
write_array [] (b ∷ bs) = fault
write_array (x ∷ array) (b ∷ bs) = write_array array bs >>= λ rest. ok (b ∷ rest)

-- The bytes before the first NUL of an array: undefined if there is none.
unfoldable pub c_string : List ℕ → Run (List ℕ)
c_string [] = fault
c_string (x ∷ array) =
    let rest = c_string array >>= λ s. ok (x ∷ s) in if x == 0 then ok [] else rest

-- `a[i]`
abbrev pub read_array : List ℕ → ℕ → Run ℕ
read_array array i = elim (get_elem? array i) [ none ↦ fault | some x ↦ ok x ]

-- What `sys_datacopy` leaves in an array of ours, and its result: with `none` nothing is copied.
unfoldable pub datacopy : List ℕ → Option (List ℕ) → ℕ → Run (ℕ × List ℕ)
unfolding write_array
datacopy array none status = ok (status, array)
datacopy array (some bytes) status = write_array array bytes >>= λ array'. ok (0, array')

-- What fetchMessage sets: its result, `_dest` and `err_code`.
pub record Fetched : Type 0 where
  pub reply : Reply
  pub dest : List ℕ
  pub state : Pm

-- `_dest` is the array of the caller, with what it holds.
unfoldable pub fetch_message : World → ℕ → ℕ → List ℕ → Pm → Run Fetched
unfolding datacopy
fetch_message w address len dest s =
    if longer_than max_message_length len
    then ok
        (record { reply = egeneric; dest = dest; state = record s { err_code = some emsgsize } })
    else if not (positive len)
    then ok (record { reply = egeneric; dest = dest; state = record s { err_code = some einval } })
    else do
      (retval, dest') ← datacopy dest (w.copy_in s.m_in.source address len) w.copy_error
      end ← read_array dest' (len - 1)
      start ← read_array dest' 0
      if not (end == 0)
          then ok (record {
            reply = egeneric;
            dest = dest';
            state = record s { err_code = some emsgsize };
          })
          else if start == 0
          then ok (record {
            reply = egeneric;
            dest = dest';
            state = record s { err_code = some emsgempty };
          })
          else ok (record { reply = value retval; dest = dest'; state = s })
