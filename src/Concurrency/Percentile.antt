-- ===== src/Concurrency/Percentile.antt =====
-- The percentile of a window (src/pipeline/concurrency.rs).
use native.Mathlib.Nat.{mul-le-mul_left}
use isartor.Common.{ℕ, suc, ◌-◌, ◌*◌, ◌/◌, ◌≤◌, ◌<◌, min, List, length, ◌≡◌, some, arith}
use isartor.Concurrency.{percentile}
use isartor.Concurrency.Sort.{
  sort, length-sort, count_le, count_lt, count_le-sort_get, count_lt-sort_get, get_elem-lt,
}

-- On a window that is not empty, no index is out of range: there is a percentile.
pub percentile_total :
    (window : List ℕ) (pct : ℕ) → 0 < length window → (p : ℕ) × (percentile window pct ≡ some p)
unfolding percentile
percentile_total window pct h = get_elem-lt (sort window) _ (omega (arith, length-sort window))

-- The index of the percentile among the sorted samples: the rank, counted from zero.
rank :
    (n m pct below covered : ℕ)
    → m ≡ n
    → 0 < n
    → pct ≤ 100
    → below ≤ min (m * pct / 100 - 1) (m - 1)
    → suc (min (m * pct / 100 - 1) (m - 1)) ≤ covered
    → (below ≤ n * pct / 100 - 1) × (n * pct / 100 - 1 < covered)
rank n m pct below covered e pos h lo hi =
    let scaled : m * pct ≤ m * 100 = mul-le-mul_left m h in rw (← e) (omega arith)

-- With `k` the number of samples times `pct` over 100, rounded down, and `pct` at most 100, the
-- percentile of a window that is not empty is its `k`-th smallest sample, or its smallest one if `k` is
-- zero: at most `k - 1` samples are below it, and more than `k - 1` are at or below it.
pub percentile_rank :
    (window : List ℕ) (pct p : ℕ)
    → 0 < length window
    → pct ≤ 100
    → percentile window pct ≡ some p
    → (count_lt p window ≤ length window * pct / 100 - 1)
      × (length window * pct / 100 - 1 < count_le p window)
unfolding percentile
percentile_rank window pct p pos h e =
    rank (length window) (length (sort window)) pct (count_lt p window) (count_le p window)
      (length-sort window) pos h (count_lt-sort_get window _ p e) (count_le-sort_get window _ p e)
