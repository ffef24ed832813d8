-- ===== src/Monitor/Rounds/Posting.antt =====
-- What the loop of `main` in src/sys_monitor.cpp posts to the database.
use aprs_wx.Double.{Double, whole}
use aprs_wx.Monitor.CpuStats.{CpuStats, get_data, set_past_data}
use aprs_wx.Monitor.CpuStats.Usage.{percent_usage-zero}
use aprs_wx.Monitor.Rounds.{
  Findings, Finished, ZoneFile, at_end, measure, monitor_loop, not_opened, on_measured, reads,
  thousandth, usage_line, zone_line,
}
use aprs_wx.Prelude.{
  All, Bool, Bytes, List, Outcome, [], codes, false, ok, refl, true, ℕ, ℤ, ◌++◌, ◌<◌, ◌∷◌, ◌≡◌,
}
use aprs_wx.Utilities.{Post}

-- A round that posts: a number in the file of the zone, if it can be opened, counters that `getData`
-- reads whatever they were before, and a transfer that succeeds.
abbrev pub IsRead : ZoneFile → Type 0
IsRead not_opened = Unit
IsRead (reads t) = Unit
IsRead at_end = ⊥

abbrev pub Posts : Findings → Type 0
Posts f =
    IsRead f.zone_file × ((s : CpuStats) → (get_data f.stat s).0 ≡ true) × (f.delivered ≡ true)

module _ (print : ℤ → Bytes) (pre : Bytes) where
  -- The line of the temperature, if there is a zone and its file can be opened.
  abbrev pub zone_text : Bytes → ZoneFile → Bytes
  zone_text [] f = []
  zone_text (c ∷ path) not_opened = []
  zone_text (c ∷ path) (reads t) =
      pre ++ (codes "cpuTemp=" ++ (print (thousandth t) ++ (b'\n' ∷ [])))
  zone_text (c ∷ path) at_end = []

  zone_line-zone_text :
      (path : Bytes) (f : ZoneFile) → IsRead f → zone_line print pre path f ≡ ok (zone_text path f)
  unfolding zone_line
  zone_line-zone_text [] f h = refl
  zone_line-zone_text (c ∷ path) not_opened h = refl
  zone_line-zone_text (c ∷ path) (reads t) h = refl
  zone_line-zone_text (c ∷ path) at_end h = absurd h

-- A text with a byte in it.
abbrev HasByte : Bytes → Type 0
HasByte s = (c : ℕ) × (rest : Bytes) × (s ≡ c ∷ rest)

HasByte-append : (s t : Bytes) → HasByte t → HasByte (s ++ t)
HasByte-append [] t h = h
HasByte-append (c ∷ s) t h = (c, s ++ t, refl)

on_measured_posts :
    (url : Bytes) (again : CpuStats → Outcome Finished) (s : CpuStats) (word : Bytes)
    (posts : List Post)
    → HasByte word
    → again s ≡ ok (record { exit_status = 0; posts = posts })
    → on_measured url again true (word, s)
      ≡ ok (record { exit_status = 0; posts = record { url = url; body = word } ∷ posts })
unfolding on_measured
on_measured_posts url again s word posts (c, rest, e) h = rw e (rw h)

module _ (F : Type 0) ⦃d : Double F⦄ (print : ℤ → Bytes) (pre : Bytes) where
  -- The texts, one for each round: the temperature, and a usage of 0.
  abbrev pub zero_usage : Bytes
  zero_usage = pre ++ (codes "cpuUse=" ++ (d.show (whole 0) ++ (b'\n' ∷ [])))

  abbrev pub texts : Bytes → Bytes → List Findings → List Post
  texts url zone [] = []
  texts url zone (f ∷ fs) =
      record { url = url; body = zone_text print pre zone f.zone_file ++ zero_usage }
      ∷ texts url zone fs

  -- Two laws of the platform's doubles, for the percentage of no usage.
  abbrev pub HasZero : Type 0
  HasZero =
      (d.mul (whole 100) (d.of_unsigned 0) ≡ whole 0)
      × ((n : ℕ) → 0 < n → d.div (whole 0) (d.of_unsigned n) ≡ whole 0)

  usage_line-zero_usage :
      (r : Bool × CpuStats)
      → HasZero
      → r.0 ≡ true
      → (s : CpuStats) × (usage_line F print pre r ≡ (zero_usage, s))
  unfolding usage_line
  usage_line-zero_usage (true, s) (mul_zero, zero_div) h =
      (set_past_data s, rw (percent_usage-zero s mul_zero zero_div) refl)
  usage_line-zero_usage (false, s) z h = cc

  -- If every round posts, the loop posts one text in each, to the address `url`: the line of the temperature, if there is
  -- one, and the line of the usage, which is 0 in all of them; and `main` returns 0 behind the signal
  -- that ends the loop.
  pub monitor_loop-texts :
      (url zone : Bytes) (fs : List Findings) (s : CpuStats)
      → HasZero
      → All Posts fs
      → monitor_loop F print pre url zone fs s
        ≡ ok (record { exit_status = 0; posts = texts url zone fs })
  unfolding monitor_loop measure
  monitor_loop-texts url zone [] s z h = refl
  monitor_loop-texts url zone (f ∷ fs) s z ((read, data_, fine), h) =
      let (s', usage) = usage_line-zero_usage (get_data f.stat s) z (data_ s) in
      rw (zone_line-zone_text print pre zone f.zone_file read) (
        rw usage (
          rw fine (
            on_measured_posts url (monitor_loop F print pre url zone fs) s' _ (texts url zone fs)
              (HasByte-append (zone_text print pre zone f.zone_file) zero_usage
                (HasByte-append pre _ (b'c', _, refl)))
              (monitor_loop-texts url zone fs s' z h))))
