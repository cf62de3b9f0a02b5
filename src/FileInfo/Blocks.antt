-- ===== src/FileInfo/Blocks.antt =====
-- Minix_Filefrag/fileinfo/fileinfo/usr/src/servers/mfs/blockinfo.c: fs_blockinfo. off_t is a signed
-- int and an unsigned number has 32 bits; what is printed is the result.
use native.Mathlib.Nat.{
  suc-mul, add-mul, zero-mul, mul-zero, mul-le-mul_right, le-mul_of_pos_right, div-mul-le_self,
  lt-div-mul-add,
}
use gjworks.Common.{
  ℕ, zero, suc, ◌+◌, ◌-◌, ◌*◌, ◌/◌, ◌%◌, ◌^◌, ◌≤◌, ◌<◌, ◌≡◌, ◌≢◌, refl, sym, ap, Bool, true, false,
  List, [], ◌∷◌, Option, none, some, ◌==◌, ltb, leb, if◌then◌else◌, map, Bool-cases, equal-cases,
  inl, inr, arith,
}
use gjworks.Machine.{Run, ok, fault, out_of_fuel, ◌>>=◌}

-- The fields of `struct inode` and of its superblock that are read.
pub record Inode : Type 0 where
  pub i_size : ℕ
  pub s_block_size : ℕ
  pub s_log_zone_size : ℕ

-- What is printed: the blocks, and "Block Count"; and the local nfrags.
pub record Printed : Type 0 where
  pub blocks : List ℕ
  pub dst_blk : ℕ
  pub nfrags : ℕ

-- `off < ip->i_size`, of signed numbers.
unfoldable pub before_end : ℕ → ℕ → Bool
before_end off i_size = ltb ((off + 2 ^ 31) % 2 ^ 32) ((i_size + 2 ^ 31) % 2 ^ 32)

module _ (read_map : ℕ → ℕ) (i_size blk_in_zone zone_size : ℕ) where
  -- The loop over the zones: the blocks, and nfrags after it.
  unfoldable pub zone_loop : ℕ → ℕ → ℕ → ℕ → Run (List ℕ × ℕ)
  unfolding before_end
  zone_loop zero off expected nfrags = out_of_fuel
  zone_loop (suc fuel) off expected nfrags =
      let blk = read_map off in
      let frags = if blk == expected then nfrags else nfrags + 1 in
      let rest =
        zone_loop fuel ((off + zone_size) % 2 ^ 32) ((blk + blk_in_zone) % 2 ^ 32) frags >>= λ r.
        ok (blk ∷ r.0, r.1) in
      if before_end off i_size then rest else ok ([], nfrags)

-- fs_blockinfo, for what find_inode gives. A shift, a division or a sum outside the ints is a fault.
unfoldable pub fs_blockinfo : (ℕ → ℕ) → ℕ → Option Inode → Run Printed
unfolding zone_loop
fs_blockinfo read_map fuel none = fault
fs_blockinfo read_map fuel (some ip) =
    let scale = ip.s_log_zone_size in
    let zone_size = ip.s_block_size * 2 ^ scale in
    let count = (ip.i_size + ip.s_block_size - 1) / ip.s_block_size in
    let printed : Run Printed =
      zone_loop read_map ip.i_size (2 ^ scale) zone_size fuel 0 0 0 >>= λ r.
      if (ip.s_block_size == 0)
      then fault
      else if leb (2 ^ 31) (ip.i_size + ip.s_block_size - 1)
      then fault
      else ok (record { blocks = r.0; dst_blk = count; nfrags = r.1 }) in
    if leb 31 scale then fault else if leb (2 ^ 31) zone_size then fault else printed

-- The offsets of the zones.
abbrev pub offsets : ℕ → ℕ → ℕ → List ℕ
offsets zone_size zero off = []
offsets zone_size (suc n) off = off ∷ offsets zone_size n (off + zone_size)

-- How many blocks do not follow the one before.
abbrev pub breaks : ℕ → ℕ → List ℕ → ℕ
breaks blk_in_zone expected [] = 0
breaks blk_in_zone expected (blk ∷ blocks) =
    (if blk == expected then 0 else 1) + breaks blk_in_zone ((blk + blk_in_zone) % 2 ^ 32) blocks

module _ (read_map : ℕ → ℕ) (i_size blk_in_zone zone_size : ℕ) where
  zone_loop-offsets :
      (n fuel off expected nfrags : ℕ)
      → 0 < zone_size
      → i_size + zone_size ≤ 2 ^ 31
      → n < fuel
      → i_size ≤ off + n * zone_size
      → off + n * zone_size < i_size + zone_size
      → let blocks = map read_map (offsets zone_size n off) in
        zone_loop read_map i_size blk_in_zone zone_size fuel off expected nfrags
        ≡ ok (blocks, nfrags + breaks blk_in_zone expected blocks)
  unfolding zone_loop before_end
  zone_loop-offsets n zero off expected nfrags pos small enough le lt = absurd (omega arith)
  zone_loop-offsets zero (suc fuel) off expected nfrags pos small enough le lt =
      let stop : before_end off i_size ≡ false = ground arith in
      let none_more : nfrags + 0 ≡ nfrags = omega arith in rw (stop, none_more) refl
  zone_loop-offsets (suc n) (suc fuel) off expected nfrags pos small enough le lt =
      let more = suc-mul n zone_size in
      let go : before_end off i_size ≡ true = ground (arith, more) in
      let next : (off + zone_size) % 2 ^ 32 ≡ off + zone_size = omega (arith, more, lt, small) in
      let blk = read_map off in
      let expected' = (blk + blk_in_zone) % 2 ^ 32 in
      let frags = if blk == expected then nfrags else nfrags + 1 in
      let rest =
        zone_loop-offsets n fuel (off + zone_size) expected' frags pos small (omega arith)
          (omega (arith, more, le)) (omega (arith, more, lt)) in
      let count : frags
            + breaks blk_in_zone expected' (map read_map (offsets zone_size n (off + zone_size)))
          ≡ nfrags + breaks blk_in_zone expected (map read_map (offsets zone_size (suc n) off)) =
        elim (Bool-cases (blk == expected)) [
          | inl e ↦ rw (e) (omega arith)
          | inr e ↦ rw (e) (omega arith)
        ] in
      rw (go, next, rest, count) refl

  -- At a multiple of the zone size the loop goes on, if the last zone is not free.
  zone_loop_endless :
      (m fuel k off expected nfrags : ℕ)
      → m * zone_size ≡ 2 ^ 31
      → i_size < 2 ^ 31
      → 2 ^ 31 < i_size + zone_size
      → off ≡ k * zone_size
      → k < m + m
      → zone_loop read_map i_size blk_in_zone zone_size fuel off expected nfrags ≡ out_of_fuel
  unfolding zone_loop before_end
  zone_loop_endless m zero k off expected nfrags whole small large e lt = refl
  zone_loop_endless m (suc fuel) k off expected nfrags whole small large e lt =
      let twice : (m + m) * zone_size ≡ 2 ^ 32 = omega (arith, add-mul m m zone_size, whole) in
      let up = suc-mul k zone_size in
      let top : suc k * zone_size ≤ (m + m) * zone_size = mul-le-mul_right zone_size lt in
      let go : before_end off i_size ≡ true = elim (Bool-cases (ltb k m)) [
        | inl low ↦
            let half : suc k * zone_size ≤ m * zone_size =
              mul-le-mul_right zone_size (ground (arith, low)) in
            ground (arith, e, up, half, whole, small, large)
        | inr high ↦
            let half : m * zone_size ≤ k * zone_size =
              mul-le-mul_right zone_size (ground (arith, high)) in
            ground (arith, e, half, whole, small, up, top, twice, large)
      ] in
      let blk = read_map off in
      let frags = if blk == expected then nfrags else nfrags + 1 in
      let rest : zone_loop read_map i_size blk_in_zone zone_size fuel ((off + zone_size) % 2 ^ 32)
            ((blk + blk_in_zone) % 2 ^ 32) frags
          ≡ out_of_fuel =
        elim (equal-cases (suc k) (m + m)) [
          | inl last ↦
              zone_loop_endless m fuel 0 ((off + zone_size) % 2 ^ 32) ((blk + blk_in_zone) % 2 ^ 32)
                frags whole small large
                (omega (arith, e, up, ap (λ t. t * zone_size) last, twice, zero-mul zone_size))
                (omega (arith, lt))
          | inr other ↦
              let below : suc (suc k) * zone_size ≤ (m + m) * zone_size =
                mul-le-mul_right zone_size (omega (arith, lt, other)) in
              zone_loop_endless m fuel (suc k) ((off + zone_size) % 2 ^ 32)
                ((blk + blk_in_zone) % 2 ^ 32) frags whole small large
                (omega (arith, e, up, below, suc-mul (suc k) zone_size, twice, large, small))
                (omega (arith, lt, other))
        ] in
      rw (go, rest) refl

abbrev pub zone_size_of : Inode → ℕ
zone_size_of ip = ip.s_block_size * 2 ^ ip.s_log_zone_size

-- The number of zones that a file needs.
abbrev pub zones : Inode → ℕ
zones ip = (ip.i_size + zone_size_of ip - 1) / zone_size_of ip

module _ (read_map : ℕ → ℕ) (fuel : ℕ) (ip : Inode) where
  -- For a file that ends a zone or more before 2 ^ 31, fs_blockinfo prints the block of each zone
  -- that the file needs, in order, and the number of blocks of its size, rounded up; nfrags is how
  -- many of the blocks do not follow the one before. The zones have a size below 2 ^ 31 that is not
  -- 0; as many rounds as there are zones, and one, are enough.
  pub fs_blockinfo-offsets :
      ip.s_log_zone_size < 31
      → 0 < (zone_size_of ip)
      → (zone_size_of ip) < 2 ^ 31
      → ip.i_size + (zone_size_of ip) ≤ 2 ^ 31
      → (zones ip) < fuel
      → let blocks = map read_map (offsets (zone_size_of ip) (zones ip) 0) in
        fs_blockinfo read_map fuel (some ip)
        ≡ ok (record {
          blocks = blocks;
          dst_blk = (ip.i_size + ip.s_block_size - 1) / ip.s_block_size;
          nfrags = breaks (2 ^ ip.s_log_zone_size) 0 blocks;
        })
  unfolding fs_blockinfo
  fs_blockinfo-offsets scale pos zone small enough =
      let one : leb 31 ip.s_log_zone_size ≡ false = ground (arith, scale) in
      let two : leb (2 ^ 31) (zone_size_of ip) ≡ false = ground (arith, zone) in
      let full : ip.s_block_size ≢ 0 = λ e.
        omega
          (arith, pos, ap (λ b. b * 2 ^ ip.s_log_zone_size) e, zero-mul (2 ^ ip.s_log_zone_size)) in
      let some_blocks : 2 ^ ip.s_log_zone_size ≢ 0 =
        λ e. omega (arith, pos, ap (λ b. ip.s_block_size * b) e, mul-zero ip.s_block_size) in
      let within : ip.s_block_size ≤ (zone_size_of ip) =
        le-mul_of_pos_right ip.s_block_size (omega (arith, some_blocks)) in
      let three : (ip.s_block_size == 0) ≡ false = ground (arith, full) in
      let four : leb (2 ^ 31) (ip.i_size + ip.s_block_size - 1) ≡ false =
        ground (arith, within, small, pos) in
      let run =
        zone_loop-offsets read_map ip.i_size (2 ^ ip.s_log_zone_size) (zone_size_of ip) (zones ip)
          fuel 0 0 0 pos small enough
          (omega (arith, lt-div-mul-add {a = ip.i_size + (zone_size_of ip) - 1} pos))
          (omega
            (arith, div-mul-le_self (ip.i_size + (zone_size_of ip) - 1) (zone_size_of ip), pos)) in
      let sum =
        breaks (2 ^ ip.s_log_zone_size) 0 (map read_map (offsets (zone_size_of ip) (zones ip) 0)) in
      let none_before : 0 + sum ≡ sum = omega arith in
      rw (one, two, run, three, four, none_before) refl

  -- For a file that ends less than a zone before 2 ^ 31, the offset passes 2 ^ 31 - 1 to a negative
  -- number and the loop never ends. The size of a zone divides 2 ^ 31.
  pub fs_blockinfo_endless :
      (m : ℕ)
      → ip.s_log_zone_size < 31
      → (zone_size_of ip) < 2 ^ 31
      → m * (zone_size_of ip) ≡ 2 ^ 31
      → ip.i_size < 2 ^ 31
      → 2 ^ 31 < ip.i_size + (zone_size_of ip)
      → fs_blockinfo read_map fuel (some ip) ≡ out_of_fuel
  unfolding fs_blockinfo
  fs_blockinfo_endless m scale zone whole small large =
      let one : leb 31 ip.s_log_zone_size ≡ false = ground (arith, scale) in
      let two : leb (2 ^ 31) (zone_size_of ip) ≡ false = ground (arith, zone) in
      let some_zones : m ≢ 0 =
        λ e. omega (arith, whole, ap (λ t. t * (zone_size_of ip)) e, zero-mul (zone_size_of ip)) in
      let run =
        zone_loop_endless read_map ip.i_size (2 ^ ip.s_log_zone_size) (zone_size_of ip) m fuel 0 0 0
          0 whole small large (sym (zero-mul (zone_size_of ip))) (omega (arith, some_zones)) in
      rw (one, two, run) refl
