-- ===== src/Sensor/Pigpio/Edges.antt =====
-- The callback of src/dhtxx_pigpio.c on any edges.
use aprs_wx.Prelude.{
  Bool-cases, if◌then◌else◌, List, Outcome, [], arith, false, inl, inr, length, ltb, ltb→lt,
  ltb-false, negsuc, ok, pos, refl, suc, true, undefined, zero, ℕ, ℤ, ◌+◌, ◌/◌, ◌<◌, ◌==◌, ◌>>=◌,
  ◌∷◌, ◌≡◌, ◌≤◌,
}
use aprs_wx.Sensor.Bits.{shift_in_inside, shift_in_outside}
use aprs_wx.Sensor.Pigpio.{
  Edge, Globals, bit_of, callback, deliver, duration_of, increment, on_low, put_bit, reset_globals,
}

-- The lows among the edges.
abbrev pub lows : List Edge → ℕ
lows [] = 0
lows (e ∷ es) = if e.level == 0 then suc (lows es) else lows es

-- The count of the bits behind `n` lows.
abbrev pub count_of : ℕ → ℤ
count_of zero = negsuc 2
count_of (suc n) = increment (count_of n)

-- The count behind three lows and `n` more.
count_of-bits : (n : ℕ) → count_of (suc (suc (suc n))) ≡ pos n
count_of-bits zero = refl
count_of-bits (suc n) = rw (count_of-bits n) (ground arith)

-- A low behind `n` others is stored, up to the forty-third.
pub put_bit_inside :
    (bit n : ℕ) (xs : List ℕ)
    → length xs ≡ 5
    → n < 43
    → (ys : List ℕ) × (put_bit bit (count_of (suc n)) xs ≡ ok ys) × (length ys ≡ 5)
unfolding put_bit
put_bit_inside bit zero xs h k = (xs, refl, h)
put_bit_inside bit (suc zero) xs h k = (xs, refl, h)
put_bit_inside bit (suc (suc zero)) xs h k = (xs, refl, h)
put_bit_inside bit (suc (suc (suc n))) xs h k =
    let (ys, e, l) = shift_in_inside bit (n / 8) xs (omega arith) in
    (ys, rw (count_of-bits (suc n)) e, omega arith)

pub put_bit_outside :
    (bit n : ℕ) (xs : List ℕ)
    → length xs ≡ 5
    → 43 ≤ n
    → put_bit bit (count_of (suc n)) xs ≡ undefined
unfolding put_bit
put_bit_outside bit zero xs h k = absurd (omega arith)
put_bit_outside bit (suc zero) xs h k = absurd (omega arith)
put_bit_outside bit (suc (suc zero)) xs h k = absurd (omega arith)
put_bit_outside bit (suc (suc (suc n))) xs h k =
    rw (count_of-bits (suc n)) (shift_in_outside bit (n / 8) xs (omega arith))

-- The globals behind `n` lows.
pub record Behind (n : ℕ) (g : Globals) : Type 0 where
  pub counted : g.bit_count ≡ count_of n
  pub five : length g.bits ≡ 5

pub callback_high : (e : Edge) (g : Globals) → (e.level == 0) ≡ false → callback e g ≡ ok g
unfolding callback
callback_high e g h = rw h

callback_low_inside :
    (e : Edge) (n : ℕ) (g : Globals)
    → (e.level == 0) ≡ true
    → Behind n g
    → n < 43
    → (g' : Globals) × (callback e g ≡ ok g') × Behind (suc n) g'
unfolding callback on_low
callback_low_inside e n g h b k =
    let bit = bit_of (duration_of e.tick g.start_tick) in
    let (ys, s, l) = put_bit_inside bit n g.bits b.five k in
    (
      record { bit_count = count_of (suc n); bits = ys; start_tick = e.tick },
      rw h (rw (b.counted) (rw s)),
      record { counted = refl; five = l },
    )

callback_low_outside :
    (e : Edge) (n : ℕ) (g : Globals)
    → (e.level == 0) ≡ true
    → Behind n g
    → 43 ≤ n
    → callback e g ≡ undefined
unfolding callback on_low
callback_low_outside e n g h b k =
    let bit = bit_of (duration_of e.tick g.start_tick) in
    rw h (rw (b.counted) (rw (put_bit_outside bit n g.bits b.five k)))

-- How `deliver` ends: with the globals behind all lows, or by a write outside `data`.
pub data Delivery (n : ℕ) : Outcome Globals → Type 0 where
  stored : (g : Globals) → n ≤ 43 → Behind n g → Delivery n (ok g)
  overrun : 43 < n → Delivery n undefined

pub deliver_from :
    (es : List Edge) (n : ℕ) (g : Globals)
    → Behind n g
    → n ≤ 43
    → Delivery (n + lows es) (deliver es g)
unfolding deliver
deliver_from [] n g b k = let e : n + 0 ≡ n = omega arith in rw e (stored g k b)
deliver_from (e ∷ es) n g b k = elim (Bool-cases (e.level == 0)) [
  | inl low ↦
      let step : n + suc (lows es) ≡ suc n + lows es = omega arith in
      rw low (
        rw step (elim (Bool-cases (ltb n 43)) [
          | inl small ↦
              let (g', c, b') = callback_low_inside e n g low b (ltb→lt n 43 small) in
              rw (c, ◌>>=◌) (deliver_from es (suc n) g' b' (ltb→lt n 43 small))
          | inr large ↦
              let big : 43 ≤ n = ltb-false n 43 large in
              rw (callback_low_outside e n g low b big, ◌>>=◌) (overrun (omega arith))
        ]))
  | inr high ↦ rw high (rw (callback_high e g high, ◌>>=◌) (deliver_from es n g b k))
]

-- Behind a reset the callback writes inside `data` exactly as long as it sees at most 43 lows; then it
-- has counted them.
pub deliver_outcomes :
    (start : ℕ) (es : List Edge) → Delivery (lows es) (deliver es (reset_globals start))
deliver_outcomes start es =
    let e : 0 + lows es ≡ lows es = omega arith in
    rw e at (
      deliver_from es 0 (reset_globals start) (record { counted = refl; five = refl })
        (omega arith))

pub delivered :
    {n : ℕ} {o : Outcome Globals} → Delivery n o → n ≤ 43 → (g : Globals) × (o ≡ ok g) × Behind n g
delivered (stored g k b) h = (g, refl, b)
delivered (overrun k) h = absurd (omega arith)
