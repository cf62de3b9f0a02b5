-- ===== src/Fragments/Programs/Laws.antt =====
-- Which inodes the two reports see.
use gjworks.Common.{
  ℕ, zero, suc, ◌+◌, ◌*◌, ◌/◌, ◌%◌, ◌^◌, ◌<◌, ◌≡◌, refl, ap, inl, inr, false, List, [], ◌∷◌, ◌==◌,
  leb, if◌then◌else◌, length, Bool-cases, ==_other, equal-cases, ◌≢◌, arith,
}
use gjworks.Machine.{Run, ok, fault, out_of_fuel, ◌>>=◌}
use gjworks.Fragments.{Report, push, scan_bits, scan_words}
use gjworks.Fragments.Programs.{
  Disk, scan_blocks, each_inode, find_inodes, grs_ext_frag, grs_int_frag, visit_zones, visit_times,
}

-- The first number is 0.
abbrev pub Begins : List ℕ → Type 0
Begins [] = ⊥
Begins (i ∷ found) = i ≡ 0

abbrev OnOk : {A : Type 0} → (A → Type 0) → Run A → Type 0
OnOk P (ok a) = P a
OnOk P fault = Unit
OnOk P out_of_fuel = Unit

bind-OnOk :
    {A B : Type 0} (P : A → Type 0) (Q : B → Type 0) (r : Run A) (f : A → Run B)
    → OnOk P r
    → ((a : A) → P a → OnOk Q (f a))
    → OnOk Q (r >>= f)
bind-OnOk P Q (ok a) f h k = k a h
bind-OnOk P Q fault f h k = tt
bind-OnOk P Q out_of_fuel f h k = tt

push-Begins : (b : ℕ) (found : List ℕ) → Begins found → OnOk Begins (push b found)
unfolding push
push-Begins b [] h = absurd h
push-Begins b (i ∷ found) h = elim (Bool-cases (leb 100 (length (i ∷ found)))) [
  | inl e ↦ rw (e) tt
  | inr e ↦ rw (e) h
]

scan_bits-Begins :
    (map_bits k left i b : ℕ) (found : List ℕ)
    → Begins found
    → OnOk (λ r. Begins r.1) (scan_bits map_bits k left i b found)
unfolding scan_bits
scan_bits-Begins map_bits k zero i b found h = h
scan_bits-Begins map_bits k (suc left) i b found h = elim (Bool-cases (leb map_bits b)) [
  | inl e ↦ rw (e) h
  | inr e ↦ elim (Bool-cases ((k / 2 ^ i) % 2 * 2 ^ i == 1)) [
    | inl f ↦
        rw (e, f)
          (bind-OnOk Begins (λ r. Begins r.1) (push b found) _ (push-Begins b found h)
            (λ l g. scan_bits-Begins map_bits k left (i + 1) (b + 1) l g))
    | inr f ↦ rw (e, f) (scan_bits-Begins map_bits k left (i + 1) (b + 1) found h)
  ]
]

module _ (map_bits : ℕ) where
  -- The words behind one whose bits were looked at.
  word-Begins :
      (k : ℕ) (words : List ℕ) (b : ℕ) (found : List ℕ)
      → k ≢ 0
      → ((l : List ℕ) → Begins l → OnOk Begins (scan_words map_bits words (b + 32) l))
      → OnOk (λ r. Begins r.1) (scan_bits map_bits k 32 0 b found)
      → OnOk Begins (scan_words map_bits (k ∷ words) b found)
  unfolding scan_words
  word-Begins k words b found nz rest h = rw (==_other k 0 nz) (
      bind-OnOk (λ r. Begins r.1) Begins (scan_bits map_bits k 32 0 b found) _ h
        (λ r g. elim (Bool-cases r.0) [ inl e ↦ rw (e) g | inr e ↦ rw (e) (rest r.1 g) ]))

  scan_words-Begins :
      (words : List ℕ) (b : ℕ) (found : List ℕ)
      → Begins found
      → OnOk Begins (scan_words map_bits words b found)
  unfolding scan_words
  scan_words-Begins [] b found h = h
  scan_words-Begins (k ∷ words) b found h = elim (equal-cases k 0) [
    | inl e ↦ rw (e) (scan_words-Begins words (b + 32) found h)
    | inr nz ↦
        word-Begins k words b found nz (λ l g. scan_words-Begins words (b + 32) l g)
          (scan_bits-Begins map_bits k 32 0 b found h)
  ]

  scan_blocks-Begins :
      (bits : ℕ) (blocks : List (List ℕ)) (b : ℕ) (found : List ℕ)
      → Begins found
      → OnOk Begins (scan_blocks map_bits bits blocks b found)
  unfolding scan_blocks
  scan_blocks-Begins bits [] b found h = h
  scan_blocks-Begins bits (words ∷ blocks) b found h =
      bind-OnOk Begins Begins (scan_words map_bits words b found) _
        (scan_words-Begins words b found h) (λ l g. scan_blocks-Begins bits blocks (b + bits) l g)

  -- Bit 0 of the map is found first.
  first-Begins :
      (k left : ℕ)
      → 0 < map_bits
      → k % 2 ≡ 1
      → OnOk (λ r. Begins r.1) (scan_bits map_bits k (suc left) 0 0 [])
  unfolding scan_bits push
  first-Begins k left some_bits odd =
      let below : leb map_bits 0 ≡ false = ground (arith, some_bits) in
      let bit : (k / 1) % 2 * 1 ≡ 1 = omega (arith, odd) in
      rw (below, bit) (scan_bits-Begins map_bits k left 1 1 (0 ∷ []) refl)

-- A map whose first inode number, which is 0, is in use.
pub record IsUsual (disk : Disk) : Type 0 where
  pub word : ℕ
  pub words : List ℕ
  pub blocks : List (List ℕ)
  pub map : disk.bitmap ≡ (word ∷ words) ∷ blocks
  pub odd : word % 2 ≡ 1
  pub some_bits : 0 < (disk.s_ninodes + 1) % 2 ^ 32

find_inodes-Begins : (disk : Disk) → IsUsual disk → OnOk Begins (find_inodes disk)
unfolding find_inodes scan_blocks
find_inodes-Begins disk u =
    let bits = (disk.s_ninodes + 1) % 2 ^ 32 in
    rw (u.map) (
      bind-OnOk Begins Begins (scan_words bits (u.word ∷ u.words) 0 []) _
        (word-Begins bits u.word u.words 0 [] (λ e. ground (arith, e, u.odd))
          (λ l g. scan_words-Begins bits u.words 32 l g)
          (first-Begins bits u.word 31 u.some_bits u.odd))
        (λ l g. scan_blocks-Begins bits disk.bits_per_block u.blocks (0 + disk.bits_per_block) l g))

-- A loop over the inodes that begins with 0 looks at none.
each_inode-Begins :
    (visit : ℕ → Report → Run Report) (found : List ℕ) (r : Report)
    → Begins found
    → each_inode visit 0 found r ≡ ok r
unfolding each_inode
each_inode-Begins visit [] r h = absurd h
each_inode-Begins visit (i ∷ found) r h = rw (h) refl

-- What either call does with the inodes that the scan finds.
visited-Begins :
    (visit : ℕ → Report → Run Report) (scan : Run (List ℕ)) (r : Report)
    → OnOk Begins scan
    → (scan >>= λ found. each_inode visit 0 found r) ≡ (scan >>= λ found. ok r)
visited-Begins visit (ok found) r h = each_inode-Begins visit found r h
visited-Begins visit fault r h = refl
visited-Begins visit out_of_fuel r h = refl

-- On a disk whose inode number 0 is in use in the map, both calls scan
-- the map, unless a zone is one block, and then look at no inode: the report is the one before.
pub grs_frag-unchanged :
    (disk : Disk) (fuel : ℕ) (r : Report)
    → IsUsual disk
    → let scan : Run Report =
        if disk.s_log_zone_size == 0 then ok r else (find_inodes disk >>= λ found. ok r) in
      (grs_ext_frag disk r ≡ scan) × (grs_int_frag disk fuel r ≡ scan)
unfolding grs_ext_frag grs_int_frag
grs_frag-unchanged disk fuel r u =
    let begins = find_inodes-Begins disk u in
    (
      ap (λ v. if disk.s_log_zone_size == 0 then ok r else v)
          (visited-Begins (λ i s. ok (visit_zones disk 7 0 i s)) (find_inodes disk) r begins),
      ap (λ v. if disk.s_log_zone_size == 0 then ok r else v)
          (visited-Begins (λ i s. visit_times disk fuel 7 i s) (find_inodes disk) r begins),
    )
