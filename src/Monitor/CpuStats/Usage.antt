-- ===== src/Monitor/CpuStats/Usage.antt =====
-- `CpuStats::getUsage` of src/sys_monitor.cpp, and the percentage that `main` computes from it.
use aprs_wx.Double.{Double, whole}
use aprs_wx.Monitor.CpuStats.{CpuStats, accumulate, get_usage, percent_usage, since}
use aprs_wx.Prelude.{Bool-cases, arith, inl, inr, refl, ℕ, ◌<◌, ◌==◌, ◌≡◌}

-- `getUsage` counts nothing as used, whatever the two readings are: every counter that is not idle time
-- is left out by the `switch`. The idle time is the sum of the two idle counters.
pub get_usage_lem :
    (s : CpuStats)
    → get_usage s ≡ (
      0,
      accumulate
          (accumulate 0 (since (s.counts 3) (s.past_counts 3)))
          (since (s.counts 4) (s.past_counts 4)),
    )
unfolding get_usage
get_usage_lem s = refl

-- The percentage of the usage that is sent is 0 for every two readings, where the platform's doubles have
-- x * 0 = 0 for the literal 100 and 0 / x = 0 for every x that is converted from a positive integer.
pub percent_usage-zero :
    {F : Type 0} ⦃d : Double F⦄ (s : CpuStats)
    → d.mul (whole 100) (d.of_unsigned 0) ≡ whole 0
    → ((n : ℕ) → 0 < n → d.div (whole 0) (d.of_unsigned n) ≡ whole 0)
    → percent_usage {F = F} (get_usage s) ≡ whole 0
unfolding percent_usage
percent_usage-zero s mul_zero zero_div =
    let unused =
      accumulate (accumulate 0 (since (s.counts 3) (s.past_counts 3)))
        (since (s.counts 4) (s.past_counts 4)) in
    let total = accumulate 0 unused in
    rw (get_usage_lem s) (elim (Bool-cases (total == 0)) [
      | inl e ↦ rw e
      | inr e ↦ rw e (rw mul_zero (zero_div total (ground arith)))
    ])
