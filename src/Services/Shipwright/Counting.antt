-- ===== src/Services/Shipwright/Counting.antt =====
-- The counts of a test run.
use grand_line.Common.{Text, count, ℕ, ℤ, ◌≡◌, ◌+◌, ◌≤◌, arith, if◌then◌else◌}
use grand_line.Services.Shipwright.Iteration.{
  is_zero, passed_word, failed_word, counts_from, parse_counts,
}

counts_from_consistent :
    (p f : ℕ) (exit_code : ℤ) (hint : ℕ)
    → ((counts_from p f exit_code hint).passed + (counts_from p f exit_code hint).failed
        ≡ (counts_from p f exit_code hint).total)
      × ((if is_zero exit_code then 0 else 1) ≤ (counts_from p f exit_code hint).failed + p)
counts_from_consistent p f exit_code hint = ground arith

-- `_parse_counts` always reports a total that is the sum of passes and failures, and a run that did
-- not exit with 0 and printed no "PASSED" is reported with a failure.
pub parse_counts_consistent :
    (stdout : Text) (exit_code : ℤ) (hint : ℕ)
    → ((parse_counts stdout exit_code hint).passed + (parse_counts stdout exit_code hint).failed
        ≡ (parse_counts stdout exit_code hint).total)
      × ((if is_zero exit_code then 0 else 1)
          ≤ (parse_counts stdout exit_code hint).failed + count passed_word stdout)
unfolding parse_counts
parse_counts_consistent stdout exit_code hint =
    counts_from_consistent (count passed_word stdout) (count failed_word stdout) exit_code hint
