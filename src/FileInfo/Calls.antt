-- ===== src/FileInfo/Calls.antt =====
-- Minix_Filefrag/fileinfo/fileinfo/usr/src: fileinfo and blockinfo of lib/libc/sys-minix/fileinfo.c,
-- and do_blockinfo of servers/vfs/fileinfo.c. A pointer is the memory from it on.
use gjworks.Common.{
  ℕ, zero, suc, ◌%◌, ◌^◌, ◌≤◌, ◌<◌, ◌≡◌, ◌≢◌, refl, ap, true, false, List, [], ◌∷◌, ◌++◌, Option,
  none, some, ◌==◌, leb, if◌then◌else◌, length, All, arith,
}
use gjworks.Machine.{Run, ok, fault}

-- The message of blockinfo, m1_i1 and m1_p1: the length of the name without its NUL, and where it
-- is.
unfoldable pub blockinfo : List ℕ → List ℕ → ℕ × List ℕ
blockinfo name memory = (length name, name ++ (0 ∷ memory))

-- What fileinfo returns, and its messages, if it sends them: m1_i2 of the one, and that of
-- blockinfo. `stat` gives the inode number, of which m1_i2 keeps 32 bits.
unfoldable pub fileinfo : (List ℕ → Option ℕ) → List ℕ → List ℕ → ℕ × Option (ℕ × (ℕ × List ℕ))
unfolding blockinfo
fileinfo stat name memory = elim (stat name) [
  | none ↦ (2, none)
  | some st_ino ↦ (0, some (st_ino % 2 ^ 32, blockinfo name memory))
]

-- What sys_datacopy brings; memory that the caller does not have gives nothing.
unfoldable pub data_copy : ℕ → List ℕ → List ℕ
data_copy zero memory = []
data_copy (suc n) [] = []
data_copy (suc n) (c ∷ memory) = c ∷ data_copy n memory

-- The string in a buffer of zeros.
unfoldable pub as_string : List ℕ → List ℕ
as_string [] = []
as_string (c ∷ s) = if c == 0 then [] else c ∷ as_string s

-- do_blockinfo, with the vnode that eat_path finds and the answer of the file server for it. The
-- name is copied to PATH_MAX zeros, and one that leaves none of them is not terminated.
module _ {V : Type 0} (path_max : ℕ) (eat_path : List ℕ → Option V) (err_code : ℕ)
    (req_blockinfo : V → ℕ) where
  unfoldable pub do_blockinfo : ℕ × List ℕ → Run ℕ
  unfolding data_copy as_string
  do_blockinfo (m1_i1, m1_p1) =
      let r : Run ℕ = elim (eat_path (as_string (data_copy m1_i1 m1_p1))) [
        | none ↦ ok err_code
        | some vp ↦ ok (req_blockinfo vp)
      ] in
      if leb path_max m1_i1 then fault else r

  copied : (name memory : List ℕ) → data_copy (length name) (name ++ memory) ≡ name
  unfolding data_copy
  copied [] memory = refl
  copied (c ∷ name) memory = ap (λ t. c ∷ t) (copied name memory)

  whole_string : (name : List ℕ) → All (λ c. c ≢ 0) name → as_string name ≡ name
  unfolding as_string
  whole_string [] h = refl
  whole_string (c ∷ name) (ne, h) =
      let not_nul : (c == 0) ≡ false = ground arith in
      rw (not_nul) (ap (λ t. c ∷ t) (whole_string name h))

  -- For a file that stat finds, fileinfo returns 0 and sends two messages: one with its inode
  -- number, of which it keeps 32 bits, and one from which the server looks up the very name that
  -- fileinfo was called with, if it is shorter than PATH_MAX, and answers for its vnode, or with
  -- err_code. A longer name leaves the buffer.
  pub fileinfo-do_blockinfo :
      (stat : List ℕ → Option ℕ) (name memory long : List ℕ) (st_ino : ℕ)
      → stat name ≡ some st_ino
      → All (λ c. c ≢ 0) name
      → length name < path_max
      → path_max ≤ length long
      → (m : ℕ × List ℕ) × (fileinfo stat name memory ≡ (0, some (st_ino % 2 ^ 32, m)))
        × (do_blockinfo m
            ≡ (elim (eat_path name) [ none ↦ ok err_code | some vp ↦ ok (req_blockinfo vp) ]))
        × (do_blockinfo (blockinfo long memory) ≡ fault)
  unfolding fileinfo do_blockinfo blockinfo
  fileinfo-do_blockinfo stat name memory long st_ino e h short over =
      let fits : leb path_max (length name) ≡ false = ground arith in
      let full : leb path_max (length long) ≡ true = ground arith in
      (
        blockinfo name memory,
        rw (fileinfo, e) refl,
        rw (fits, copied name (0 ∷ memory), whole_string name h) refl,
        rw (full) refl,
      )
