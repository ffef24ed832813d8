-- ===== src/Sensor.antt =====
-- The two programs that read a DHT sensor, src/dhtxx_pigpio.c and src/DHT22.c: what they share.
pub mod Bits
pub mod Single
pub mod Pigpio
pub mod Wiring
use aprs_wx.Prelude.{
  Bool, List, Outcome, [], ok, suc, undefined, zero, ℕ, ◌%◌, ◌*◌, ◌+◌, ◌/◌, ◌==◌, ◌>>=◌, ◌∷◌,
}

-- The global array `int data[5]`, zeroed. Each element takes eight bits at most, so no shift of it
-- overflows.
abbrev pub zeros : List ℕ
zeros = 0 ∷ 0 ∷ 0 ∷ 0 ∷ 0 ∷ []

-- `data[i] <<= 1; data[i] |= bit`: the shift clears the lowest bit. Outside the array it is undefined.
unfoldable pub shift_in : ℕ → ℕ → List ℕ → Outcome (List ℕ)
shift_in bit i [] = undefined
shift_in bit zero (x ∷ xs) = ok ((x * 2 + bit) ∷ xs)
shift_in bit (suc i) (x ∷ xs) = do ys ← shift_in bit i xs; ok (x ∷ ys)

-- `data[4] == ((data[0] + data[1] + data[2] + data[3]) & 0xff)`, on the five elements.
abbrev pub sums_up : ℕ → ℕ → ℕ → ℕ → ℕ → Bool
sums_up a b c d e = e == (a + b + c + d) % 256

-- `x & 0x80`, as a test.
abbrev pub has_sign : ℕ → Bool
has_sign x = x / 128 % 2 == 1
