-- ===== src/Fragments.antt =====
-- Minix_Filefrag/src/proj3src/servers/mfs: ext_frag.c and int_frag.c. `zone_t`, `block_t` and
-- `unsigned int` have 32 bits, `short` has 16.
pub mod Reports
pub mod Bits
pub mod Programs
mod Tests
use gjworks.Common.{
  ℕ, zero, suc, ◌+◌, ◌*◌, ◌/◌, ◌%◌, ◌^◌, Bool, true, false, ◌||◌, List, [], ◌∷◌, ◌++◌, ◌==◌, ltb,
  leb, if◌then◌else◌, length,
}
use gjworks.Machine.{Run, ok, fault, out_of_fuel, ◌>>=◌}

-- The three globals of a report.
pub record Report : Type 0 where
  pub least : ℕ
  pub most : ℕ
  pub average : ℕ

abbrev pub no_report : Report
no_report = record { least = 0; most = 0; average = 0 }

-- `while(temp > 0) { count *= 2; temp--; }` for a short.
unfoldable pub double : ℕ → ℕ → ℕ
double zero count = count
double (suc temp) count = double temp ((count * 2) % 2 ^ 16)

-- The loop of get_frag over the blocks: how many have b_bytes 0.
unfoldable pub count_empty : (ℕ → Bool) → ℕ → ℕ → ℕ → ℕ
count_empty empty zero b frag = frag
count_empty empty (suc left) b frag =
    count_empty empty left ((b + 1) % 2 ^ 32) (if empty b then frag + 1 else frag)

-- The end of get_frag in ext_frag.c.
unfoldable pub report_external : ℕ → Report → Report
report_external frag r =
    let low = if (r.least == 0) || ltb frag r.least then frag else r.least in
    let high = if (r.most == 0) || ltb low frag then frag else r.most in
    if frag == 0
    then r
    else record { least = low; most = high; average = ((high + low) % 2 ^ 32) / 2 }

-- get_frag, for a `num` below 2 ^ 15; `empty` says which blocks of the device have b_bytes 0. A
-- count from 2 ^ 15 is negative, and gives no rounds.
unfoldable pub get_frag : (ℕ → Bool) → ℕ → ℕ → Report → ℕ × Report
get_frag empty grs_zone num r =
    let count = double num 1 in
    let rounds = if leb (2 ^ 15) count then 0 else count in
    let frag = count_empty empty rounds ((grs_zone * 2 ^ num) % 2 ^ 32) 0 in
    (frag, report_external frag r)

-- `for(j=b;b< b+num;b++)` in int_frag.c: how many blocks have the device NO_DEV.
unfoldable pub count_unused : ℕ → (ℕ → Bool) → ℕ → ℕ → ℕ → Run ℕ
count_unused zero unused num b frag = out_of_fuel
count_unused (suc fuel) unused num b frag =
    let rest =
      count_unused fuel unused num ((b + 1) % 2 ^ 32) (if unused b then frag + 1 else frag) in
    if ltb b ((b + num) % 2 ^ 32) then rest else ok frag

unfoldable pub get_internal_filefrag : ℕ → (ℕ → Bool) → ℕ → ℕ → Run ℕ
get_internal_filefrag fuel unused grs_zone num =
    count_unused fuel unused num ((grs_zone * 2 ^ num) % 2 ^ 32) 0

-- The end of get_internal_frag; the first test is on the maximum.
unfoldable pub report_internal : ℕ → Report → Report
report_internal frag r =
    let low = if (r.most == 0) || ltb frag r.most then frag else r.least in
    let high = if (low == 0) || ltb low frag then frag else r.most in
    if frag == 0
    then r
    else record { least = low; most = high; average = ((high + low) % 2 ^ 32) / 2 }

unfoldable pub get_internal_frag : ℕ → (ℕ → Bool) → ℕ → ℕ → Report → Run (ℕ × Report)
get_internal_frag fuel unused grs_zone num r = do
  frag ← count_unused fuel unused num ((grs_zone * 2 ^ num) % 2 ^ 32) 0
  ok (frag, report_internal frag r)

-- `in_numb[n++] = b`, in an array of 100.
unfoldable pub push : ℕ → List ℕ → Run (List ℕ)
push b in_numb = if leb 100 (length in_numb) then fault else ok (in_numb ++ (b ∷ []))

-- The loop over the bits of the word `k`, with `left` rounds from `i`, for the bit number `b` of
-- bit `i`; whether the end of the map was met.
unfoldable pub scan_bits : ℕ → ℕ → ℕ → ℕ → ℕ → List ℕ → Run (Bool × List ℕ)
scan_bits map_bits k zero i b in_numb = ok (false, in_numb)
scan_bits map_bits k (suc left) i b in_numb =
    let next : List ℕ → Run (Bool × List ℕ) =
      λ found. scan_bits map_bits k left (i + 1) (b + 1) found in
    let take = push b in_numb >>= next in
    let skip = next in_numb in
    if leb map_bits b
    then ok (true, in_numb)
    else if (k / 2 ^ i) % 2 * 2 ^ i == 1
    then take
    else skip

-- The loop over the words of a block, as conv4 gives them, from the word whose first bit has the number `b`.
unfoldable pub scan_words : ℕ → List ℕ → ℕ → List ℕ → Run (List ℕ)
scan_words map_bits [] b in_numb = ok in_numb
scan_words map_bits (k ∷ words) b in_numb =
    let next : List ℕ → Run (List ℕ) = λ found. scan_words map_bits words (b + 32) found in
    let word = scan_bits map_bits k 32 0 b in_numb >>= λ r. if r.0 then ok r.1 else next r.1 in
    let skip = next in_numb in if k == 0 then skip else word
