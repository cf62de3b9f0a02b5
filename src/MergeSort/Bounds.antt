-- ===== src/MergeSort/Bounds.antt =====
-- Where the sort ends.
use gjworks.Common.{
  ℕ, zero, suc, ◌+◌, ◌-◌, ◌≤◌, ◌<◌, ◌/◌, ◌≡◌, inl, inr, refl, ap, true, ◌&&◌, List, [], ◌∷◌, leb,
  ltb, Bool-cases, arith,
}
use gjworks.Machine.{Run, ok, fault, out_of_fuel, ◌>>=◌}
use gjworks.Machine.Array.{read, write}
use gjworks.Integer.{ℤ, less}
use gjworks.Merging.{copy_run, copy_back}
use gjworks.MergeSort.{fill_temp, merge, m_sort, merge_sort}

-- A call that ends: it returns, or is undefined.
abbrev pub Ends : {A : Type 0} → Run A → Type 0
Ends (ok a) = Unit
Ends fault = Unit
Ends out_of_fuel = ⊥

bind-Ends :
    {A B : Type 0} (r : Run A) (f : A → Run B) → Ends r → ((a : A) → Ends (f a)) → Ends (r >>= f)
bind-Ends (ok a) f e h = h a
bind-Ends fault f e h = tt
bind-Ends out_of_fuel f e h = e

read-Ends : {A : Type 0} (a : List A) (i : ℕ) → Ends (read a i)
unfolding read
read-Ends [] i = tt
read-Ends (v ∷ a) zero = tt
read-Ends (v ∷ a) (suc i) = read-Ends a i

write-Ends : {A : Type 0} (a : List A) (i : ℕ) (v : A) → Ends (write a i v)
unfolding write
write-Ends a i v = bind-Ends (read a i) _ (read-Ends a i) (λ old. tt)

copy_run-Ends :
    (fuel : ℕ) (arr temp : List ℤ) (i end p : ℕ)
    → suc end < i + fuel
    → 0 < fuel
    → Ends (copy_run fuel arr temp i end p)
unfolding copy_run
copy_run-Ends zero arr temp i end p lt some = absurd (omega arith)
copy_run-Ends (suc fuel) arr temp i end p lt some = elim (Bool-cases (leb i end)) [
  | inr e ↦ rw (e) tt
  | inl e ↦
      let le : i ≤ end = ground (arith, e) in
      rw (e) (
        bind-Ends (read arr i) _ (read-Ends arr i) (λ v.
          bind-Ends (write temp p v) _ (write-Ends temp p v) (λ t.
            copy_run-Ends fuel arr t (i + 1) end (p + 1) (omega (arith, lt))
              (omega (arith, lt, le)))))
]

copy_back-Ends : (n r : ℕ) (arr temp : List ℤ) → Ends (copy_back n r arr temp)
unfolding copy_back
copy_back-Ends zero r arr temp = tt
copy_back-Ends (suc n) zero arr temp = tt
copy_back-Ends (suc n) (suc r) arr temp =
    bind-Ends (read temp r) _ (read-Ends temp r)
      (λ v. bind-Ends (write arr r v) _ (write-Ends arr r v) (λ a. copy_back-Ends n r a temp))

fill_temp-Ends :
    (fuel n m : ℕ) (numbers temp : List ℤ) (left left_end mid right p : ℕ)
    → suc left_end ≤ left + n
    → suc right ≤ mid + m
    → n + m < fuel
    → Ends (fill_temp fuel numbers temp left left_end mid right p)
unfolding fill_temp
fill_temp-Ends zero n m numbers temp left left_end mid right p a b lt = absurd (omega arith)
fill_temp-Ends (suc fuel) n m numbers temp left left_end mid right p a b lt =
    elim (Bool-cases (leb left left_end && leb mid right)) [
      | inr e ↦ rw (e) (
          bind-Ends (copy_run (suc fuel) numbers temp left left_end p) _
            (copy_run-Ends (suc fuel) numbers temp left left_end p (omega (arith, a, lt))
              (omega arith))
            (λ q.
              bind-Ends (copy_run (suc fuel) numbers q.0 mid right q.1) _
                (copy_run-Ends (suc fuel) numbers q.0 mid right q.1 (omega (arith, b, lt))
                  (omega arith))
                (λ r. tt)))
      | inl e ↦
          let le : (left ≤ left_end) × (mid ≤ right) = ground (arith, e) in
          rw (e) (
            bind-Ends (read numbers left) _ (read-Ends numbers left) (λ x.
              bind-Ends (read numbers mid) _ (read-Ends numbers mid) (λ y.
                elim (Bool-cases (less x y)) [
                  | inl l ↦ rw (l) (
                      bind-Ends (write temp p x) _ (write-Ends temp p x) (λ t.
                        fill_temp-Ends fuel (n - 1) m numbers t (left + 1) left_end mid right
                          (p + 1) (omega (arith, a, le)) b (omega (arith, lt, a, le))))
                  | inr g ↦ rw (g) (
                      bind-Ends (write temp p y) _ (write-Ends temp p y) (λ t.
                        fill_temp-Ends fuel n (m - 1) numbers t left left_end (mid + 1) right
                          (p + 1) a (omega (arith, b, le)) (omega (arith, lt, b, le))))
                ])))
    ]

bind-fault :
    {A B : Type 0} (r : Run A) (f : A → Run B)
    → Ends r
    → ((a : A) → f a ≡ fault)
    → (r >>= f) ≡ fault
bind-fault (ok a) f e h = h a
bind-fault fault f e h = refl
bind-fault out_of_fuel f e h = absurd e

-- One round more than there are places in front: the place -1 is written.
copy_back-fault : (n r : ℕ) (arr temp : List ℤ) → r < n → copy_back n r arr temp ≡ fault
unfolding copy_back
copy_back-fault zero r arr temp lt = absurd (omega arith)
copy_back-fault (suc n) zero arr temp lt = refl
copy_back-fault (suc n) (suc r) arr temp lt = bind-fault (read temp r) _ (read-Ends temp r) (λ v.
    bind-fault (write arr r v) _ (write-Ends arr r v)
      (λ a. copy_back-fault n r a temp (omega (arith, lt))))

module _ (fuel : ℕ) (numbers temp : List ℤ) (left mid right : ℕ) (before : left < mid)
    (past : mid ≤ right) (enough : right + 1 < left + fuel) where
  filled-Ends : Ends (fill_temp fuel numbers temp left (mid - 1) mid right left)
  filled-Ends =
      fill_temp-Ends fuel (mid - left) (right + 1 - mid) numbers temp left (mid - 1) mid right left
        (omega (arith, before)) (omega arith) (omega (arith, before, past, enough))

  merge-Ends : Ends (merge fuel numbers temp left mid right)
  unfolding merge
  merge-Ends =
      bind-Ends (fill_temp fuel numbers temp left (mid - 1) mid right left) _ filled-Ends (λ t.
        bind-Ends (copy_back (suc (right + 1 - left)) (right + 1) numbers t) _
          (copy_back-Ends (suc (right + 1 - left)) (right + 1) numbers t) (λ a. tt))

  merge-fault : left ≡ 0 → merge fuel numbers temp left mid right ≡ fault
  unfolding merge
  merge-fault z =
      bind-fault (fill_temp fuel numbers temp left (mid - 1) mid right left) _ filled-Ends (λ t.
        ap (λ r. r >>= λ a. ok (a, t))
          (copy_back-fault (suc (right + 1 - left)) (right + 1) numbers t (omega (arith, z))))

m_sort-Ends :
    (fuel : ℕ) (numbers temp : List ℤ) (left end : ℕ)
    → end < left + fuel
    → 0 < fuel
    → Ends (m_sort fuel numbers temp left end)
unfolding m_sort
m_sort-Ends zero numbers temp left end lt some = absurd (omega arith)
m_sort-Ends (suc fuel) numbers temp left end lt some = elim (Bool-cases (ltb (left + 1) end)) [
  | inr e ↦ rw (e) tt
  | inl e ↦
      let long : left + 1 < end = ground (arith, e) in
      let mid = (end - 1 + left) / 2 in
      let half : (left ≤ mid) × (mid + 1 < end) = omega (arith, long) in
      rw (e) (
        bind-Ends (m_sort fuel numbers temp left (mid + 1)) _
          (m_sort-Ends fuel numbers temp left (mid + 1) (omega (arith, half, lt))
            (omega (arith, long, lt)))
          (λ p.
            bind-Ends (m_sort fuel p.0 p.1 (mid + 1) end) _
              (m_sort-Ends fuel p.0 p.1 (mid + 1) end (omega (arith, half, lt))
                (omega (arith, long, lt)))
              (λ q.
                merge-Ends (suc end) q.0 q.1 left (mid + 1) (end - 1) (omega (arith, half))
                  (omega (arith, half)) (omega (arith, long)))))
]

-- The sort of two or more numbers, with any numbers and any second array, ends in an access outside
-- of an array: its behaviour is always undefined.
pub merge_sort-fault :
    (numbers temp : List ℤ) (len : ℕ) → 1 < len → merge_sort numbers temp len ≡ fault
unfolding merge_sort m_sort
merge_sort-fault numbers temp len long =
    let mid = (len - 1 + 0) / 2 in
    let more : ltb (0 + 1) len ≡ true = ground (arith, long) in
    let half : mid + 1 < len = omega (arith, long) in
    rw (more) (
      bind-fault (m_sort len numbers temp 0 (mid + 1)) _
        (m_sort-Ends len numbers temp 0 (mid + 1) (omega (arith, half)) (omega (arith, long)))
        (λ p.
          bind-fault (m_sort len p.0 p.1 (mid + 1) len) _
            (m_sort-Ends len p.0 p.1 (mid + 1) len (omega arith) (omega (arith, long)))
            (λ q.
              merge-fault (suc len) q.0 q.1 0 (mid + 1) (len - 1) (omega arith)
                (omega (arith, half)) (omega (arith, long)) refl)))
