-- ===== src/Sensor/Pigpio/Process.antt =====
-- `main` of src/dhtxx_pigpio.c as a whole.
use aprs_wx.Prelude.{
  All, Bool-cases, Bytes, Ensures, Ensures->>=, List, Option, [], arith, codes, false, inl, inr,
  leb, length, ltb, negsuc, none, ok, pos, some, true, ℕ, ℤ, is_zero, ◌&&◌, ◌<◌, ◌>>=◌, ◌^◌, ◌∷◌,
  ◌≡◌, ◌≤◌,
}
use aprs_wx.Sensor.Pigpio.{Attempt, attempt_loop}
use aprs_wx.Sensor.Pigpio.Arguments.{
  Board, Options, default_options, is_failed, on_argument, on_pin, on_word, parse, read_sensor,
  same_letters, sensor_main, version_line, pigpio_line,
}
use aprs_wx.Sensor.Pigpio.Ending.{HasRoom, attempt_loop-returns}
use aprs_wx.Std.Number.{strtol}
use aprs_wx.Sensor.Single.{Single}

-- A pin that the library accepts.
abbrev pub IsUsable : Options → Type 0
IsUsable o = (2 ≤ o.gpio) × (o.gpio ≤ 31)

abbrev AreUsable : Option Options → Type 0
AreUsable none = Unit
AreUsable (some o) = IsUsable o

on_pin-IsUsable : (z : ℤ) (o : Options) → IsUsable o → Ensures IsUsable (on_pin z o)
on_pin-IsUsable (pos n) o h = elim (Bool-cases (ltb n (2 ^ 31))) [
  | inl e ↦ rw e (elim (Bool-cases (ltb 1 n && leb n 31)) [
    | inl fits ↦ rw fits (ground arith)
    | inr not_ ↦ rw not_ h
  ])
  | inr e ↦ rw e tt
]
on_pin-IsUsable (negsuc n) o h = elim (Bool-cases (ltb n (2 ^ 31))) [
  | inl e ↦ rw e h
  | inr e ↦ rw e tt
]

-- The words leave the pin alone.
gpio-on_word : (s : Bytes) (o : Options) → (on_word s o).gpio ≡ o.gpio
unfolding on_word
gpio-on_word s o = ground arith

on_argument-IsUsable : (s : Bytes) (o : Options) → IsUsable o → Ensures IsUsable (on_argument s o)
unfolding on_argument
on_argument-IsUsable s o h = on_pin-IsUsable (strtol s) (on_word s o) (rw (gpio-on_word s o) h)

parse-AreUsable : (args : List Bytes) (o : Options) → IsUsable o → Ensures AreUsable (parse args o)
unfolding parse
parse-AreUsable [] o h = h
parse-AreUsable (s ∷ args) o h = elim (Bool-cases (same_letters s (codes "help"))) [
  | inl e ↦ rw e tt
  | inr e ↦ rw e (
      Ensures->>= IsUsable AreUsable (on_argument s o) (parse args) (on_argument-IsUsable s o h)
        (λ o' h'. parse-AreUsable args o' h'))
]

parse-IsUsable :
    (args : List Bytes) {o : Options} → parse args default_options ≡ ok (some o) → IsUsable o
parse-IsUsable args e = rw e at (parse-AreUsable args default_options (omega arith))

module _ (S : Type 0) ⦃f : Single S⦄ where
  -- On a board that starts and that accepts the pins 2 to 31, and for any arguments that are read, with
  -- no number outside `int`, and that neither ask for the loop nor for help, three passes with at most 43
  -- lows each are enough: `main` returns 0 and has
  -- printed its version, the version of the library, and behind them one to three lines, which are those
  -- of the passes for the device that the arguments name.
  pub sensor_main-returns :
      (args : List Bytes) (o : Options) (board : Board) (passes : List Attempt)
      → parse args default_options ≡ ok (some o)
      → o.looping ≡ false
      → is_failed board.initialised ≡ false
      → ((gpio : ℕ) → 2 ≤ gpio → gpio ≤ 31 → is_zero (board.alert gpio) ≡ true)
      → 3 ≤ length passes
      → All HasRoom passes
      → (readings : List Bytes) × (attempt_loop S o.device false (pos 3) passes ≡ ok readings)
        × (sensor_main S args board passes
            ≡ ok (record {
              exit_status = pos 0;
              lines = version_line ∷ pigpio_line board.initialised ∷ readings;
            }))
        × (0 < length readings)
        × (length readings ≤ 3)
  unfolding sensor_main read_sensor
  sensor_main-returns args o board passes p once starts accepts k r =
      let (ls, e, some_, few) = attempt_loop-returns S o.device 3 passes (omega arith) k r in
      let usable = parse-IsUsable args p in
      (
        ls,
        e,
        rw (p, ◌>>=◌) (rw starts (rw (accepts o.gpio usable.0 usable.1) (rw once (rw (e, ◌>>=◌))))),
        some_,
        few,
      )
