-- ===== src/DupRemoval/Union.antt =====
-- What the merge of two runs leaves.
use gjworks.Common.{
  ℕ, zero, suc, ◌+◌, ◌-◌, ◌≤◌, ◌<◌, ◌≡◌, inl, inr, refl, ap, ◌∙◌, true, false, ◌&&◌, ◌||◌, List,
  leb, length, set, length-set, Bool-cases, arith,
}
use gjworks.Machine.{ok}
use gjworks.Machine.Array.{read-at, write-set}
use gjworks.Integer.{ℤ, IsIncreasing, pos, less, same}
use gjworks.Merging.{copy_back}
use gjworks.Merging.Runs.{
  val, slice, put_at, length-put_at, length-slice, copy_run-put_at, slice-put_at, copy_back-Copied,
  slice_ext,
}
use gjworks.DupRemoval.{fill_temp, merge}
use gjworks.DupRemoval.Sets.{
  union, common, has, union_nil, common_nil, length-union, union-IsIncreasing, has-union,
}

-- The last two loops.
fill_temp-rest :
    (fuel n m : ℕ) (arr temp : List ℤ) (left left_end mid right p dup : ℕ)
    → left + n ≡ suc left_end
    → mid + m ≡ suc right
    → n + m < suc fuel
    → left + n ≤ length arr
    → mid + m ≤ length arr
    → p + (n + m) ≤ length temp
    → (leb left left_end && leb mid right) ≡ false
    → fill_temp (suc fuel) arr temp left left_end mid right p dup
      ≡ ok (put_at (put_at temp p (slice arr left n)) (p + n) (slice arr mid m), dup)
unfolding fill_temp
fill_temp-rest fuel n m arr temp left left_end mid right p dup e f lt in_l in_r room done =
    let one =
      copy_run-put_at (suc fuel) n arr temp left left_end p e (omega (arith, lt)) in_l
        (omega (arith, room)) in
    let t = put_at temp p (slice arr left n) in
    let two =
      copy_run-put_at (suc fuel) m arr t mid right (p + n) f (omega (arith, lt)) in_r
        (omega (arith, room, length-put_at (slice arr left n) temp p)) in
    rw (done, one, two) refl

fill_temp-union :
    (fuel n m : ℕ) (arr temp : List ℤ) (left left_end mid right p dup : ℕ)
    → left + n ≡ suc left_end
    → mid + m ≡ suc right
    → n + m < fuel
    → left + n ≤ length arr
    → mid + m ≤ length arr
    → p + (n + m) ≤ length temp
    → fill_temp fuel arr temp left left_end mid right p dup
      ≡ ok (
        put_at temp p (union (slice arr left n) (slice arr mid m)),
        dup + common (slice arr left n) (slice arr mid m),
      )
unfolding fill_temp
fill_temp-union zero n m arr temp left left_end mid right p dup e f lt in_l in_r room =
    absurd (omega arith)
fill_temp-union (suc fuel) zero m arr temp left left_end mid right p dup e f lt in_l in_r room =
    let done : leb left left_end ≡ false = ground (arith, e) in
    let end : (leb left left_end && leb mid right) ≡ false = rw (done) refl in
    let run =
      fill_temp-rest fuel 0 m arr temp left left_end mid right p dup e f lt in_l in_r room end in
    let none : p + 0 ≡ p = omega arith in
    let kept : dup + 0 ≡ dup = omega arith in rw (run, none, kept) refl
fill_temp-union (suc fuel) (suc n) zero arr temp left left_end mid right p dup e f lt in_l in_r
      room =
    let end : (leb left left_end && leb mid right) ≡ false = ground (arith, f) in
    let run =
      fill_temp-rest fuel (suc n) 0 arr temp left left_end mid right p dup e f lt in_l in_r room
        end in
    let kept : dup + 0 ≡ dup = omega arith in
    rw (run, union_nil (slice arr (left + 1) n), common_nil (slice arr (left + 1) n), kept) refl
fill_temp-union (suc fuel) (suc n) (suc m) arr temp left left_end mid right p dup e f lt in_l in_r
      room =
    let x = val arr left in
    let y = val arr mid in
    let go : (leb left left_end && leb mid right) ≡ true = ground (arith, e, f) in
    let rx = read-at (pos 0) arr left (omega (arith, in_l)) in
    let ry = read-at (pos 0) arr mid (omega (arith, in_r)) in
    let wx = write-set (pos 0) temp p x (omega (arith, room)) in
    let wy = write-set (pos 0) temp p y (omega (arith, room)) in
    let long : (v : ℤ) → length (set temp p v) ≡ length temp = λ v. length-set temp p v in
    elim (Bool-cases (same x y)) [
      | inl eq ↦
          let rest =
            fill_temp-union fuel n m arr (set temp p x) (left + 1) left_end (mid + 1) right (p + 1)
              (dup + 1) (omega (arith, e)) (omega (arith, f)) (omega (arith, lt))
              (omega (arith, in_l)) (omega (arith, in_r)) (omega (arith, room, long x)) in
          let sum : dup + 1 + common (slice arr (left + 1) n) (slice arr (mid + 1) m)
              ≡ dup + suc (common (slice arr (left + 1) n) (slice arr (mid + 1) m)) =
            omega arith in
          rw (go, rx, ry, eq, wx, rest, sum) refl
      | inr ne ↦ elim (Bool-cases (less x y)) [
        | inl l ↦
            let rest =
              fill_temp-union fuel n (suc m) arr (set temp p x) (left + 1) left_end mid right
                (p + 1) dup (omega (arith, e)) f (omega (arith, lt)) (omega (arith, in_l)) in_r
                (omega (arith, room, long x)) in
            rw (go, rx, ry, ne, l, wx, rest) refl
        | inr g ↦
            let rest =
              fill_temp-union fuel (suc n) m arr (set temp p y) left left_end (mid + 1) right
                (p + 1) dup e (omega (arith, f)) (omega (arith, lt)) in_l (omega (arith, in_r))
                (omega (arith, room, long y)) in
            rw (go, rx, ry, ne, g, wy, rest) refl
      ]
    ]

-- What the merge of the runs `xs` and `ys`, from `left` to `right`, leaves of `arr`.
pub record Merged (arr new : List ℤ) (left right : ℕ) (xs ys : List ℤ) (dup : ℕ) : Type 0 where
  pub same_length : length new ≡ length arr
  pub out : List ℤ
  pub written : slice new left (length out) ≡ out
  pub counted : length out + dup ≡ length xs + length ys
  pub increasing : IsIncreasing out
  pub members : (v : ℤ) → has v out ≡ (has v xs || has v ys)
  pub before : (k : ℕ) → k < left → val new k ≡ val arr k
  pub behind : (k : ℕ) → right < k → val new k ≡ val arr k

merge-parts :
    (fuel : ℕ) (arr temp t new : List ℤ) (left mid right dup : ℕ)
    → fill_temp fuel arr temp left (mid - 1) mid right left 0 ≡ ok (t, dup)
    → copy_back (right + 1 - left) (right + 1) arr t ≡ ok new
    → merge fuel arr temp left mid right ≡ ok (new, t, dup)
unfolding merge
merge-parts fuel arr temp t new left mid right dup fill run = rw (fill, run) refl

-- The merge of two increasing runs, of `n` and `m` numbers, returns, puts every number of the two
-- once and in order, from `left` on, counts those that were in both, and changes nothing else but
-- as many places behind them.
pub merge-Merged :
    (fuel n m : ℕ) (arr temp : List ℤ) (left mid right : ℕ)
    → left + n ≡ mid
    → mid + m ≡ suc right
    → 0 < n
    → n + m < fuel
    → right < length arr
    → right < length temp
    → IsIncreasing (slice arr left n)
    → IsIncreasing (slice arr mid m)
    → (new : List ℤ) × (temp' : List ℤ) × (dup : ℕ) × (merge fuel arr temp left mid right
        ≡ ok (new, temp', dup))
      × (length temp' ≡ length temp)
      × Merged arr new left right (slice arr left n) (slice arr mid m) dup
merge-Merged fuel n m arr temp left mid right e f some_left enough in_arr in_temp up1 up2 =
    let xs = slice arr left n in
    let ys = slice arr mid m in
    let out = union xs ys in
    let counted = length-union xs ys in
    let all : length xs + length ys ≡ n + m =
      omega (arith, length-slice arr left n, length-slice arr mid m) in
    let fits : left + length out ≤ suc right = omega (arith, counted, all, e, f) in
    let t = put_at temp left out in
    let long : length t ≡ length temp = length-put_at out temp left in
    let fill =
      fill_temp-union fuel n m arr temp left (mid - 1) mid right left 0
        (omega (arith, e, some_left)) f enough (omega (arith, e, f, in_arr))
        (omega (arith, f, in_arr)) (omega (arith, e, f, in_temp)) in
    let none : 0 + common xs ys ≡ common xs ys = omega arith in
    let width : right + 1 - left ≡ n + m = omega (arith, e, f) in
    let end : right + 1 ≡ left + (n + m) = omega (arith, e, f) in
    let (new, run, c) =
      copy_back-Copied (n + m) left arr t (omega (arith, e, f, in_arr))
        (omega (arith, e, f, in_temp, long)) in
    let copied =
      slice_ext new t left (length out)
        (λ k le lt. c.copied k le (omega (arith, lt, counted, all))) in
    (
      new,
      t,
      common xs ys,
      merge-parts fuel arr temp t new left mid right (common xs ys)
          (fill ∙ ap (λ q. ok (t, q)) none)
          (ap (λ q. copy_back q (right + 1) arr t) width
            ∙ (ap (λ q. copy_back (n + m) q arr t) end ∙ run)),
      long,
      record {
        same_length = c.same_length;
        out = out;
        written = copied ∙ slice-put_at out temp left (omega (arith, fits, in_temp));
        counted = counted;
        increasing = union-IsIncreasing xs ys up1 up2;
        members = λ v. has-union v xs ys;
        before = c.before;
        behind = λ k gt. c.behind k (omega (arith, gt, e, f));
      },
    )
