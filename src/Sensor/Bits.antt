-- ===== src/Sensor/Bits.antt =====
-- A bit that is shifted into the array `data` of the two programs: inside it, and outside.
use aprs_wx.Prelude.{
  List, [], arith, length, ok, refl, suc, undefined, zero, ℕ, ◌*◌, ◌+◌, ◌<◌, ◌∷◌, ◌≡◌, ◌≤◌,
}
use aprs_wx.Sensor.{shift_in}

pub shift_in_inside :
    (bit i : ℕ) (xs : List ℕ)
    → i < length xs
    → (ys : List ℕ) × (shift_in bit i xs ≡ ok ys) × (length ys ≡ length xs)
unfolding shift_in
shift_in_inside bit i [] h = absurd (omega arith)
shift_in_inside bit zero (x ∷ xs) h = ((x * 2 + bit) ∷ xs, refl, refl)
shift_in_inside bit (suc i) (x ∷ xs) h =
    let (ys, e, l) = shift_in_inside bit i xs (omega arith) in (x ∷ ys, rw e, omega arith)

pub shift_in_outside : (bit i : ℕ) (xs : List ℕ) → length xs ≤ i → shift_in bit i xs ≡ undefined
unfolding shift_in
shift_in_outside bit i [] h = refl
shift_in_outside bit zero (x ∷ xs) h = absurd (omega arith)
shift_in_outside bit (suc i) (x ∷ xs) h = rw (shift_in_outside bit i xs (omega arith))
