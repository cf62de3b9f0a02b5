-- ===== src/Fragments/Tests.antt =====
-- Runs of the reports and of the scan.
mod Programs
use gjworks.Common.{ℕ, ◌≡◌, List, [], ◌∷◌, ◌++◌, ◌/◌, arith}
use gjworks.Machine.{ok}
use gjworks.Fragments.{no_report, report_internal, report_external, scan_words}
use gjworks.Fragments.Reports.{
  report_all, last_positive, IsLeast, report_internal-last, report_external-IsLeast,
}
use gjworks.Fragments.Bits.{first_bits, scan_words-first_bits}

abbrev frags : List ℕ
frags = 4 ∷ 0 ∷ 2 ∷ 3 ∷ []
