-- ===== src/Fragments/Tests/Programs.antt =====
-- A disk of one block of bitmap, with the inodes 0, 1 and 32 in use.
use gjworks.Common.{◌≡◌, refl, true, false, [], ◌∷◌, none, ◌==◌, if◌then◌else◌, arith}
use gjworks.Machine.{Run, ok, ◌>>=◌}
use gjworks.Fragments.{Report, no_report}
use gjworks.Fragments.Programs.{Disk, find_inodes, grs_ext_frag, grs_int_frag}
use gjworks.Fragments.Programs.Laws.{IsUsual, grs_frag-unchanged}

abbrev disk : Disk
disk = record {
  s_log_zone_size = 1;
  s_ninodes = 63;
  bits_per_block = 64;
  bitmap = (3 ∷ 1 ∷ []) ∷ [];
  i_zone = λ i j. 0;
  v1_ind = λ b. 0 ∷ 5 ∷ [];
  empty = λ b. true;
  unused = λ b. false;
  st_ino = none;
}

disk-IsUsual : IsUsual disk
disk-IsUsual = record {
  word = 3;
  words = 1 ∷ [];
  blocks = [];
  map = refl;
  odd = refl;
  some_bits = omega arith;
}

grs_frag-unchanged_example :
    let scan : Run Report =
      if disk.s_log_zone_size == 0
      then ok no_report
      else (find_inodes disk >>= λ found. ok no_report) in
    (grs_ext_frag disk no_report ≡ scan) × (grs_int_frag disk 9 no_report ≡ scan)
grs_frag-unchanged_example = grs_frag-unchanged disk 9 no_report disk-IsUsual
