-- ===== src/Sensor/Pigpio.antt =====
-- src/dhtxx_pigpio.c: the callback on the levels of the pin, and the attempts to read the sensor.
pub mod Arguments
pub mod Frame
pub mod Process
pub mod Reading
pub mod Edges
pub mod Ending
use aprs_wx.Prelude.{
  Bool, Bytes, List, Outcome, [], codes, false, if◌then◌else◌, is_zero, ltb, negsuc, not, ok, pos,
  suc, true, undefined, unfinished, zero, ℕ, ℤ, ◌%◌, ◌&&◌, ◌*◌, ◌++◌, ◌+◌, ◌-◌, ◌/◌, ◌==◌, ◌>>=◌,
  ◌^◌, ◌||◌, ◌∷◌,
}
use aprs_wx.Sensor.{has_sign, shift_in, sums_up, zeros}
use aprs_wx.Sensor.Single.{Single}

-- The globals `bitCount`, `data` and `startTick`, the last by its bit pattern of 32 bits.
pub record Globals : Type 0 where
  pub bit_count : ℤ
  pub bits : List ℕ
  pub start_tick : ℕ

-- A call of the callback by the library: the level, and the tick.
pub record Edge : Type 0 where
  pub level : ℕ
  pub tick : ℕ

-- `int duration = tick - startTick`, by its bit pattern.
abbrev pub duration_of : ℕ → ℕ → ℕ
duration_of tick start = (tick + 2 ^ 32 - start) % 2 ^ 32

-- `duration > 100 ? 1 : 0`: the pattern stands for a negative number from 2 ^ 31 on.
abbrev pub bit_of : ℕ → ℕ
bit_of duration = if ltb 100 duration && ltb duration (2 ^ 31) then 1 else 0

-- `++bitCount`.
abbrev pub increment : ℤ → ℤ
increment (pos n) = pos (n + 1)
increment (negsuc zero) = pos 0
increment (negsuc (suc n)) = negsuc n

-- The bit behind `++bitCount`, if the three first lows have been seen.
unfoldable pub put_bit : ℕ → ℤ → List ℕ → Outcome (List ℕ)
put_bit bit (pos zero) xs = ok xs
put_bit bit (pos (suc n)) xs = shift_in bit (n / 8) xs
put_bit bit (negsuc n) xs = ok xs

-- The level has gone low, after `duration`.
unfoldable pub on_low : ℕ → Edge → Globals → Outcome Globals
unfolding put_bit
on_low duration e g = do
  let count = increment g.bit_count
  xs ← put_bit (bit_of duration) count g.bits
  ok (record { bit_count = count; bits = xs; start_tick = e.tick })

unfoldable pub callback : Edge → Globals → Outcome Globals
unfolding on_low
callback e g = if e.level == 0 then on_low (duration_of e.tick g.start_tick) e g else ok g

-- The calls of the callback in the time that `main` waits.
unfoldable pub deliver : List Edge → Globals → Outcome Globals
deliver [] g = ok g
deliver (e ∷ es) g = callback e g >>= deliver es

pub data Device : Type 0 where
  dht11 : Device
  dht22 : Device

-- One pass of the loop: `gpioTick()`, the edges before the check of the data, and the edges after it,
-- up to the next pass.
pub record Attempt : Type 0 where
  pub start : ℕ
  pub during : List Edge
  pub after : List Edge

-- The state in front of the start signal.
abbrev pub reset_globals : ℕ → Globals
reset_globals tick = record { bit_count = negsuc 2; bits = zeros; start_tick = tick }

abbrev pub is_forty : ℤ → Bool
is_forty (pos n) = n == 40
is_forty (negsuc n) = false

-- `--tries`.
abbrev pub decrement : ℤ → ℤ
decrement (pos zero) = negsuc 0
decrement (pos (suc n)) = pos n
decrement (negsuc n) = negsuc (n + 1)

-- Behind a pass: the loop goes on, or ends.
unfoldable pub on_pass : (ℤ → Outcome (List Bytes)) → Bool → ℤ → Bytes × Bool → Outcome (List Bytes)
on_pass again looping tries (line, valid) = do
  let left = if valid then pos 0 else decrement tries
  let next = again left
  lines ← if looping || not (is_zero left) then next else ok []
  ok (line ∷ lines)

module _ {S : Type 0} ⦃f : Single S⦄ where
  abbrev pub humidity_of : Device → ℕ → ℕ → S
  humidity_of dht11 a b = f.add (f.of_int a) (f.div (f.of_int b) (f.literal 10 0))
  humidity_of dht22 a b = f.div (f.of_int (a * 256 + b)) (f.literal 10 0)

  abbrev pub celsius_of : Device → ℕ → ℕ → S
  celsius_of dht11 c d = f.add (f.of_int c) (f.div (f.of_int d) (f.literal 10 0))
  celsius_of dht22 c d =
      let t = f.div (f.of_int (c % 128 * 256 + d)) (f.literal 10 0) in
      if has_sign c then f.negated t else t

  abbrev pub fahrenheit_of : S → S
  fahrenheit_of t = f.add (f.div (f.mul (f.literal 9 0) t) (f.literal 5 0)) (f.literal 32 0)

  -- The line that is printed.
  abbrev pub reading_line : S → S → Bytes
  reading_line t h =
      codes "Temperature: "
      ++ (f.show t
          ++ (codes "C "
              ++ (f.show (fahrenheit_of t)
                  ++ (codes "F  Humidity: " ++ (f.show h ++ codes "%\n")))))

module _ (S : Type 0) ⦃f : Single S⦄ where
  -- The check of the data: the line and, for a valid reading, that it is one.
  unfoldable pub check : Device → ℤ → List ℕ → Bytes × Bool
  check device n (a ∷ b ∷ c ∷ d ∷ e ∷ []) =
      if is_forty n && sums_up a b c d e
      then (reading_line {S = S} (celsius_of device c d) (humidity_of device a b), true)
      else (codes "Data Invalid!\n", false)
  check device n _ = (codes "Data Invalid!\n", false)

  -- `do ... while (loopFlag || tries)`, with the lines that are printed.
  unfoldable pub attempt_loop : Device → Bool → ℤ → List Attempt → Outcome (List Bytes)
  unfolding deliver check on_pass
  attempt_loop device looping tries [] = unfinished
  attempt_loop device looping tries (a ∷ later) = do
    g ← deliver a.during (reset_globals a.start)
    _ ← deliver a.after g
    on_pass (λ t. attempt_loop device looping t later) looping tries
        (check device g.bit_count g.bits)
