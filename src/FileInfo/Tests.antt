-- ===== src/FileInfo/Tests.antt =====
-- Two processes, files that are open, and a file of three zones.
use gjworks.Common.{
  ℕ, ◌+◌, ◌/◌, ◌-◌, ◌%◌, ◌^◌, ◌≡◌, refl, List, [], ◌∷◌, ◌++◌, Option, none, some, leb, map,
  if◌then◌else◌, length, arith, Bool-cases, inl, inr,
}
use gjworks.Machine.{Run, ok, fault, ◌>>=◌}
use gjworks.FileInfo.Holders.{
  Filp, Fproc, do_fileinfo, holders, Appends, print_all, print_all-text, do_fileinfo-holders,
}
use gjworks.FileInfo.Blocks.{
  Inode, fs_blockinfo, offsets, breaks, zone_size_of, zones, fs_blockinfo-offsets,
}

-- A digit for each process.
abbrev digits : ℕ → List ℕ
digits pid = (48 + pid % 10) ∷ []

abbrev sprintf : List ℕ → ℕ → Run (List ℕ)
sprintf buf pid =
    if leb 1024 (length (buf ++ (32 ∷ digits pid))) then fault else ok (buf ++ (32 ∷ digits pid))

sprintf-Appends : Appends sprintf digits
sprintf-Appends buf pid lt = elim (Bool-cases (leb 1024 (length (buf ++ (32 ∷ digits pid))))) [
  | inl e ↦ absurd (ground (arith, e, lt))
  | inr e ↦ rw (e) refl
]

abbrev free_slot : Filp
free_slot = record { v_inode_nr = none }

abbrev filp_of : ℕ → Filp
filp_of nr = record { v_inode_nr = some nr }

abbrev fproc : List Fproc
fproc =
    record { fp_pid = 7; fp_filp = none ∷ some 1 ∷ some 1 ∷ [] }
    ∷ record { fp_pid = 8; fp_filp = some 0 ∷ [] }
    ∷ record { fp_pid = 9; fp_filp = some 2 ∷ some 1 ∷ [] }
    ∷ []

do_fileinfo-holders_example :
    (do_fileinfo sprintf 5 (filp_of 4 ∷ filp_of 5 ∷ filp_of 5 ∷ []) fproc
      ≡ (print_all sprintf [] (holders 1 fproc) >>= λ pids. ok (some pids)))
    × (do_fileinfo sprintf 5 (filp_of 4 ∷ []) fproc ≡ ok none)
    × (do_fileinfo sprintf 5 (filp_of 4 ∷ free_slot ∷ filp_of 5 ∷ []) fproc ≡ fault)
do_fileinfo-holders_example =
    do_fileinfo-holders sprintf 5 (filp_of 4 ∷ []) (filp_of 5) free_slot (filp_of 5 ∷ []) fproc
      ((4, refl, refl), tt) refl refl

-- " 7 9"
two_holders : print_all sprintf [] (holders 1 fproc) ≡ ok (32 ∷ 55 ∷ 32 ∷ 57 ∷ [])
two_holders = print_all-text sprintf digits sprintf-Appends [] (holders 1 fproc) (omega arith)

abbrev file : Inode
file = record { i_size = 9000; s_block_size = 1024; s_log_zone_size = 2 }

abbrev read_map : ℕ → ℕ
read_map off = 100 + off / 1024

fs_blockinfo-offsets_example :
    fs_blockinfo read_map 4 (some file)
    ≡ ok (record {
      blocks = map read_map (offsets (zone_size_of file) (zones file) 0);
      dst_blk = (9000 + 1024 - 1) / 1024;
      nfrags = breaks (2 ^ 2) 0 (map read_map (offsets (zone_size_of file) (zones file) 0));
    })
fs_blockinfo-offsets_example =
    fs_blockinfo-offsets read_map 4 file (omega arith) (omega arith) (omega arith) (omega arith)
      (omega arith)

abbrev eat_path : List ℕ → Option ℕ
eat_path name = some 1

abbrev stat : List ℕ → Option ℕ
stat name = some 5
