-- ===== src/Fragments/Programs.antt =====
-- Minix_Filefrag/src/proj3src/servers/mfs: the calls grsExtFrag, grsIntFrag and grsIntFragFile.
-- What Minix reads from the disk is a parameter.
pub mod Laws
use gjworks.Common.{
  ℕ, zero, suc, ◌+◌, ◌*◌, ◌%◌, ◌^◌, Bool, List, [], ◌∷◌, Option, none, some, ◌==◌, if◌then◌else◌,
  length,
}
use gjworks.Machine.{Run, ok, fault, ◌>>=◌}
use gjworks.Fragments.{Report, get_frag, get_internal_frag, get_internal_filefrag, scan_words}

-- The fields of the super block; the words of the blocks of the inode bitmap, as conv4 gives them;
-- `i_zone[j]` of an inode; the zones that count in an indirect block, which are the first
-- s_block_size / 32; the tests of get_frag and get_internal_frag on a block; and the inode that
-- stat gives for the file of the call.
pub record Disk : Type 0 where
  pub s_log_zone_size : ℕ
  pub s_ninodes : ℕ
  pub bits_per_block : ℕ
  pub bitmap : List (List ℕ)
  pub i_zone : ℕ → ℕ → ℕ
  pub v1_ind : ℕ → List ℕ
  pub empty : ℕ → Bool
  pub unused : ℕ → Bool
  pub st_ino : Option ℕ

-- The loop over the blocks of the bitmap, from the one whose first bit has the number `b`. The
-- origin 1 lies in the first word of the first block, so the scan starts at bit 0.
unfoldable pub scan_blocks : ℕ → ℕ → List (List ℕ) → ℕ → List ℕ → Run (List ℕ)
scan_blocks map_bits bits [] b in_numb = ok in_numb
scan_blocks map_bits bits (words ∷ blocks) b in_numb =
    scan_words map_bits words b in_numb >>= λ found.
    scan_blocks map_bits bits blocks (b + bits) found

-- `for (n = 0; in_numb[n] != 0; n++)`, over an array of 100 with 0 behind the numbers found; `n`
-- is where the numbers stand.
unfoldable pub each_inode : (ℕ → Report → Run Report) → ℕ → List ℕ → Report → Run Report
each_inode visit n [] r = if n == 100 then fault else ok r
each_inode visit n (i ∷ found) r =
    let next : Run Report = visit i r >>= λ s. each_inode visit (n + 1) found s in
    if i == 0 then ok r else next

module _ (disk : Disk) where
  unfoldable pub find_inodes : Run (List ℕ)
  unfolding scan_blocks
  find_inodes = scan_blocks ((disk.s_ninodes + 1) % 2 ^ 32) disk.bits_per_block disk.bitmap 0 []

  -- The zones 0 to 6 of grsExtFrag; its branch for j == 7 is not reached.
  unfoldable pub visit_zones : ℕ → ℕ → ℕ → Report → Report
  unfolding get_frag
  visit_zones zero j i r = r
  visit_zones (suc times) j i r =
      let next : Report = (get_frag disk.empty (disk.i_zone i j) disk.s_log_zone_size r).1 in
      visit_zones times (j + 1) i (if disk.i_zone i j == 0 then next else r)

  unfoldable pub grs_ext_frag : Report → Run Report
  unfolding find_inodes each_inode visit_zones
  grs_ext_frag r =
      let visited : Run Report =
        find_inodes >>= λ found. each_inode (λ i s. ok (visit_zones 7 0 i s)) 0 found r in
      if disk.s_log_zone_size == 0 then ok r else visited

  -- The zones of an indirect block in grsIntFrag.
  unfoldable pub visit_indirect : ℕ → List ℕ → Report → Run Report
  unfolding get_internal_frag
  visit_indirect fuel [] r = ok r
  visit_indirect fuel (zone ∷ zones) r =
      let next : Run Report =
        get_internal_frag fuel disk.unused zone disk.s_log_zone_size r >>= λ p.
        visit_indirect fuel zones p.1 in
      let skip : Run Report = visit_indirect fuel zones r in if zone == 0 then next else skip

  -- The block of `i_zone[7]`, whose zones are read seven times.
  abbrev pub indirect : ℕ → List ℕ
  indirect i = disk.v1_ind ((disk.i_zone i 7 * 2 ^ disk.s_log_zone_size) % 2 ^ 32)

  unfoldable pub visit_times : ℕ → ℕ → ℕ → Report → Run Report
  unfolding visit_indirect
  visit_times fuel zero i r = ok r
  visit_times fuel (suc times) i r =
      visit_indirect fuel (indirect i) r >>= λ s. visit_times fuel times i s

  unfoldable pub grs_int_frag : ℕ → Report → Run Report
  unfolding find_inodes each_inode visit_times
  grs_int_frag fuel r =
      let visited : Run Report =
        find_inodes >>= λ found. each_inode (λ i s. visit_times fuel 7 i s) 0 found r in
      if disk.s_log_zone_size == 0 then ok r else visited

  -- The same loops of grsIntFragFile, which add up `frag_cnt`.
  unfoldable pub add_indirect : ℕ → List ℕ → ℕ → Run ℕ
  add_indirect fuel [] frag_cnt = ok frag_cnt
  add_indirect fuel (zone ∷ zones) frag_cnt =
      let next : Run ℕ =
        get_internal_filefrag fuel disk.unused zone disk.s_log_zone_size >>= λ frag.
        add_indirect fuel zones ((frag_cnt + frag) % 2 ^ 32) in
      let skip : Run ℕ = add_indirect fuel zones frag_cnt in if zone == 0 then next else skip

  unfoldable pub add_times : ℕ → ℕ → ℕ → ℕ → Run ℕ
  unfolding add_indirect
  add_times fuel zero i frag_cnt = ok frag_cnt
  add_times fuel (suc times) i frag_cnt =
      add_indirect fuel (indirect i) frag_cnt >>= λ cnt. add_times fuel times i cnt

  -- The number that it prints; `none` for a file that is not found.
  unfoldable pub grs_int_frag_file : ℕ → Run (Option ℕ)
  unfolding add_times
  grs_int_frag_file fuel = elim disk.st_ino [
    | none ↦ ok none
    | some i ↦ add_times fuel 7 i 0 >>= λ frag_cnt. ok (some frag_cnt)
  ]
