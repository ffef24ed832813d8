-- ===== src/Tests/Usage.antt =====
-- The theorems of the processor usage.
use aprs_wx.Double.{Double}
use aprs_wx.Monitor.CpuStats.{CpuStats, count_of_items, get_data, get_usage, percent_usage}
use aprs_wx.Monitor.CpuStats.Reading.{get_data_numbers, store_numbers}
use aprs_wx.Monitor.CpuStats.Usage.{percent_usage-zero}
use native.Mathlib.Nat.{zero-div}
use aprs_wx.Prelude.{[], arith, codes, false, refl, some, true, ℕ, ◌*◌, ◌+◌, ◌-◌, ◌/◌, ◌∷◌, ◌≡◌}
use aprs_wx.Std.Number.{digits_value, is_digit, starts_digit}
use aprs_wx.Tests.Samples.{lacks-Lacks}

abbrev reading : CpuStats
reading = record { name = codes "cpu"; counts = λ i. 70 + i; past_counts = λ i. 60 }

get_data_numbers_example : get_data (some (codes "cpu  12 7")) reading ≡ (
  true,
  record reading {
    counts = store_numbers count_of_items 0 (codes "12" ∷ codes "7" ∷ []) reading.counts;
  },
)
unfolding digits_value starts_digit is_digit
get_data_numbers_example =
    get_data_numbers (codes "cpu") (codes "12" ∷ codes "7" ∷ []) reading
      (lacks-Lacks b' ' (codes "cpu") refl)
      (((refl, (refl, tt)), refl, omega arith), (((refl, tt), refl, omega arith), tt))

-- Numbers in the place of doubles, on which the two laws hold.
instance abbrev pub counting : Double ℕ
counting = record {
  literal = λ m k. m;
  of_long = λ z. 0;
  of_unsigned = λ n. n;
  add = λ a b. a + b;
  sub = λ a b. a - b;
  mul = λ a b. a * b;
  div = λ a b. a / b;
  lt = λ a b. false;
  sin = λ a. a;
  cos = λ a. a;
  asin = λ a. a;
  sqrt = λ a. a;
  exp = λ a. a;
  atan2 = λ a b. a;
  pow = λ a b. a;
  pi = 3;
  strtod = λ s. (0, 0);
  show_as = λ notation precision a. [];
  show = λ a. [];
  elapsed = λ now then_. now - then_;
}

percent_usage-zero_example : percent_usage {F = ℕ} ⦃d = counting⦄ (get_usage reading) ≡ 0
percent_usage-zero_example =
    percent_usage-zero {F = ℕ} ⦃d = counting⦄ reading refl (λ n h. zero-div n)
