-- ===== src/DupRemoval/Distinct.antt =====
-- What rm_duplicate leaves.
use gjworks.Common.{
  ℕ, zero, suc, ◌+◌, ◌-◌, ◌≤◌, ◌≡◌, inl, inr, refl, sym, ap, ◌∙◌, List, [], ◌∷◌, ◌++◌, ◌==◌,
  if◌then◌else◌, length, length-append, append_assoc, set, Bool-cases, arith,
}
use gjworks.Machine.{ok}
use gjworks.Machine.Array.{read, write}
use gjworks.Integer.{ℤ, pos, same}
use gjworks.DupRemoval.{zeros, count_equal, check_duplicate, rm_loop, rm_duplicate}

-- How many of the numbers are `v`.
abbrev pub count : ℤ → List ℤ → ℕ
count v [] = 0
count v (x ∷ xs) = if same x v then suc (count v xs) else count v xs

-- The numbers that are added to those kept: no number a second time, and no 0.
abbrev pub keep : List ℤ → List ℤ → List ℤ
keep kept [] = kept
keep kept (v ∷ vs) =
    let more = keep (kept ++ (v ∷ [])) vs in
    let less = keep kept vs in if count v (kept ++ (pos 0 ∷ [])) == 0 then more else less

-- An array that begins with the numbers.
read-append : (xs : List ℤ) (v : ℤ) (ys : List ℤ) → read (xs ++ (v ∷ ys)) (length xs) ≡ ok v
unfolding read
read-append [] v ys = refl
read-append (x ∷ xs) v ys = read-append xs v ys

set-append :
    (xs : List ℤ) (v w : ℤ) (ys : List ℤ)
    → set (xs ++ (v ∷ ys)) (length xs) w ≡ (xs ++ (w ∷ [])) ++ ys
set-append [] v w ys = refl
set-append (x ∷ xs) v w ys = ap (λ l. x ∷ l) (set-append xs v w ys)

count_equal-count :
    (xs before after : List ℤ) (v : ℤ)
    → count_equal (length xs) (length before) (before ++ (xs ++ after)) v ≡ ok (count v xs)
unfolding count_equal
count_equal-count [] before after v = refl
count_equal-count (x ∷ xs) before after v =
    let long : length (before ++ (x ∷ [])) ≡ length before + 1 =
      omega (arith, length-append before (x ∷ [])) in
    let rest : count_equal (length xs) (length before + 1) (before ++ (x ∷ (xs ++ after))) v
        ≡ ok (count v xs) =
      ap (λ q. count_equal (length xs) q (before ++ (x ∷ (xs ++ after))) v) (sym long)
      ∙ (ap (λ a. count_equal (length xs) (length (before ++ (x ∷ []))) a v)
            (sym (append_assoc before (x ∷ []) (xs ++ after)))
          ∙ count_equal-count xs (before ++ (x ∷ [])) after v) in
    rw (read-append before x (xs ++ after), rest) refl

-- The test of check_duplicate, one place behind the numbers that are kept.
check_duplicate-count :
    (kept zs : List ℤ) (v : ℤ)
    → check_duplicate (kept ++ (pos 0 ∷ zs)) v (length kept) ≡ ok (count v (kept ++ (pos 0 ∷ [])))
unfolding check_duplicate
check_duplicate-count kept zs v =
    let places : length kept + 1 ≡ length (kept ++ (pos 0 ∷ [])) =
      omega (arith, length-append kept (pos 0 ∷ [])) in
    ap (λ q. count_equal q 0 (kept ++ (pos 0 ∷ zs)) v) places
    ∙ (ap (λ a. count_equal (length (kept ++ (pos 0 ∷ []))) 0 a v)
          (sym (append_assoc kept (pos 0 ∷ []) zs))
        ∙ count_equal-count (kept ++ (pos 0 ∷ [])) [] zs v)

-- The numbers kept and 0 in the places behind them, of `size` in all.
abbrev pub padded : List ℤ → ℕ → List ℤ
padded kept size = kept ++ zeros (size - length kept)

write-kept :
    (kept : List ℤ) (v : ℤ) (r : ℕ)
    → write (kept ++ zeros (suc r)) (length kept) v ≡ ok ((kept ++ (v ∷ [])) ++ zeros r)
unfolding write
write-kept kept v r =
    rw (read-append kept (pos 0) (zeros r), set-append kept (pos 0) v (zeros r)) refl

rm_loop-keep :
    (vs pre post kept : List ℤ) (r : ℕ)
    → length vs ≤ r
    → rm_loop (length vs) (length pre) (length kept) (pre ++ (vs ++ post)) (kept ++ zeros r)
      ≡ ok (padded (keep kept vs) (length kept + r))
unfolding rm_loop
rm_loop-keep [] pre post kept r le =
    let left : length kept + r - length kept ≡ r = omega arith in rw (left) refl
rm_loop-keep (v ∷ vs) pre post kept zero le = absurd (omega arith)
rm_loop-keep (v ∷ vs) pre post kept (suc r) le =
    let a = pre ++ (v ∷ (vs ++ post)) in
    let test = check_duplicate-count kept (zeros r) v in
    let long : length (pre ++ (v ∷ [])) ≡ length pre + 1 =
      omega (arith, length-append pre (v ∷ [])) in
    let longer : length (kept ++ (v ∷ [])) ≡ length kept + 1 =
      omega (arith, length-append kept (v ∷ [])) in
    let next : (ks temp : List ℤ) (j size : ℕ)
        → rm_loop (length vs) (length (pre ++ (v ∷ []))) j ((pre ++ (v ∷ [])) ++ (vs ++ post)) temp
          ≡ ok (padded (keep ks vs) size)
        → rm_loop (length vs) (length pre + 1) j a temp ≡ ok (padded (keep ks vs) size) =
      λ ks temp j size h.
        ap (λ q. rm_loop (length vs) q j a temp) (sym long)
        ∙ (ap (λ b. rm_loop (length vs) (length (pre ++ (v ∷ []))) j b temp)
              (sym (append_assoc pre (v ∷ []) (vs ++ post)))
            ∙ h) in
    elim (Bool-cases (count v (kept ++ (pos 0 ∷ [])) == 0)) [
      | inl e ↦
          let ks = kept ++ (v ∷ []) in
          let size : length ks + r ≡ length kept + suc r = omega (arith, longer) in
          let rest = next ks (ks ++ zeros r) (length kept + 1) (length kept + suc r) (
            ap
              (λ q.
                rm_loop (length vs) (length (pre ++ (v ∷ []))) q ((pre ++ (v ∷ [])) ++ (vs ++ post))
                  (ks ++ zeros r))
              (sym longer)
            ∙ (rm_loop-keep vs (pre ++ (v ∷ [])) post ks r (omega (arith, le))
                ∙ ap (λ q. ok (padded (keep ks vs) q)) size)) in
          rw (read-append pre v (vs ++ post), test, e, write-kept kept v r) rest
      | inr e ↦
          let rest =
            next kept (kept ++ zeros (suc r)) (length kept) (length kept + suc r)
              (rm_loop-keep vs (pre ++ (v ∷ [])) post kept (suc r) (omega (arith, le))) in
          rw (read-append pre v (vs ++ post), test, e) rest
    ]

-- On an array of 15 numbers or more rm_duplicate stays inside its arrays and returns the first
-- number and, in order, those of the next 14 that are neither 0 nor among those before, in an
-- array of 15 that is filled up with 0.
pub rm_duplicate-keep :
    (v : ℤ) (vs post : List ℤ)
    → length vs ≡ 14
    → rm_duplicate (v ∷ (vs ++ post)) ≡ ok (padded (keep (v ∷ []) vs) 15)
unfolding rm_duplicate
rm_duplicate-keep v vs post e =
    ap (λ q. rm_loop q 1 1 (v ∷ (vs ++ post)) (v ∷ zeros 14)) (sym e)
    ∙ rm_loop-keep vs (v ∷ []) post (v ∷ []) 14 (omega (arith, e))
