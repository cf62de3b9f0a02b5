-- ===== src/Fragments/Reports.antt =====
-- What the reports of fragmentation show.
use gjworks.Common.{
  ℕ, ◌+◌, ◌/◌, ◌%◌, ◌^◌, ◌≤◌, ◌<◌, ◌≡◌, refl, ◌⊎◌, inl, inr, false, List, [], ◌∷◌, All, Bool-cases,
  ◌==◌, ltb, if◌then◌else◌, arith, ◌∙◌, ap,
}
use gjworks.Fragments.{Report, no_report, report_external, report_internal}

-- One zone after another.
abbrev pub report_all : (ℕ → Report → Report) → List ℕ → Report → Report
report_all update [] r = r
report_all update (frag ∷ frags) r = report_all update frags (update frag r)

-- The last number that is not 0.
abbrev pub last_positive : List ℕ → ℕ → ℕ
last_positive [] last = last
last_positive (frag ∷ frags) last = last_positive frags (if frag == 0 then last else frag)

report-last :
    (frag last : ℕ)
    → frag < 2 ^ 32
    → report_internal frag (record { least = last; most = 0; average = last / 2 }) ≡ record {
      least = if frag == 0 then last else frag;
      most = 0;
      average = (if frag == 0 then last else frag) / 2;
    }
unfolding report_internal
report-last frag last h = elim (Bool-cases (frag == 0)) [
  | inl e ↦ rw (e) refl
  | inr e ↦
      let same : ltb frag frag ≡ false = ground arith in
      let small : (0 + frag) % 2 ^ 32 ≡ frag = omega arith in rw (e, same, small) refl
]

all-last :
    (frags : List ℕ) (last : ℕ)
    → All (λ f. f < 2 ^ 32) frags
    → report_all report_internal frags (record { least = last; most = 0; average = last / 2 })
      ≡ record {
        least = last_positive frags last;
        most = 0;
        average = last_positive frags last / 2;
      }
all-last [] last h = refl
all-last (frag ∷ frags) last (h, k) =
    ap (report_all report_internal frags) (report-last frag last h)
    ∙ all-last frags (if frag == 0 then last else frag) k

-- Whatever the zones, the maximum of the internal report is 0, its minimum is the last number of
-- unused blocks that was not 0, and its average half of that.
pub report_internal-last :
    (frags : List ℕ)
    → All (λ f. f < 2 ^ 32) frags
    → report_all report_internal frags no_report
      ≡ record { least = last_positive frags 0; most = 0; average = last_positive frags 0 / 2 }
report_internal-last frags h = all-last frags 0 h

-- The order of a report, and that its minimum is below all numbers that have gone into it.
pub record IsLeast (frags : List ℕ) (r : Report) : Type 0 where
  pub below : All (λ f. (f ≡ 0) ⊎ ((0 < r.least) × (r.least ≤ f))) frags
  pub ordered : r.least ≤ r.most
  pub empty : r.least ≡ 0 → r.most ≡ 0

-- One number more, for the numbers before it.
least-step :
    (frag : ℕ) (r : Report)
    → r.least ≤ r.most
    → (r.least ≡ 0 → r.most ≡ 0)
    → let s = report_external frag r in
      (s.least ≤ s.most)
      × ((s.least ≡ 0 → s.most ≡ 0)
          × (((frag ≡ 0) ⊎ ((0 < s.least) × (s.least ≤ frag)))
              × ((r.least ≡ 0) ⊎ ((0 < s.least) × (s.least ≤ r.least)))))
unfolding report_external
least-step frag r o z = ground arith

record Reported (frags : List ℕ) (r s : Report) : Type 0 where
  least : IsLeast frags s
  before : (r.least ≡ 0) ⊎ ((0 < s.least) × (s.least ≤ r.least))

all-least :
    (frags : List ℕ) (r : Report)
    → r.least ≤ r.most
    → (r.least ≡ 0 → r.most ≡ 0)
    → Reported frags r (report_all report_external frags r)
all-least [] r o z = record {
  least = record { below = tt; ordered = o; empty = z };
  before = ground arith;
}
all-least (frag ∷ frags) r o z =
    let s = report_external frag r in
    let (o', (z', (b, c))) = least-step frag r o z in
    let k = all-least frags s o' z' in
    let m : (s.least ≡ 0)
        ⊎ ((0 < (report_all report_external frags s).least)
            × ((report_all report_external frags s).least ≤ s.least)) =
      k.before in
    record {
      least = record {
        below = (ground (arith, b, m), k.least.below);
        ordered = k.least.ordered;
        empty = k.least.empty;
      };
      before = ground (arith, c, m);
    }

-- Whatever the zones, the minimum of the external report is at most each number of empty blocks
-- that is not 0, and is not 0 where there is one; and it is at most the maximum.
pub report_external-IsLeast :
    (frags : List ℕ) → IsLeast frags (report_all report_external frags no_report)
report_external-IsLeast frags = (all-least frags no_report (omega arith) (λ e. refl)).least
