-- ===== src/Sensor/Pigpio/Frame.antt =====
-- A whole transmission of a DHT22 as src/dhtxx_pigpio.c reads it.
use aprs_wx.Prelude.{
  List, Outcome, [], arith, length, ok, pos, refl, suc, ℕ, ◌%◌, ◌*◌, ◌++◌, ◌+◌, ◌/◌, ◌<◌, ◌>>=◌,
  >>=-ok, ◌^◌, ◌∷◌, ◌≡◌, ◌≢◌, ◌≤◌, ◌⊎◌, inl, inr, ne→==,
}
use aprs_wx.Sensor.{shift_in, zeros}
use aprs_wx.Sensor.Pigpio.{
  Edge, bit_of, callback, deliver, duration_of, on_low, put_bit, reset_globals,
}
use aprs_wx.Sensor.Pigpio.Edges.{callback_high, count_of}

-- The time between two lows that stands for a bit.
abbrev pub Codes : ℕ → ℕ → Type 0
Codes d b = ((b ≡ 1) × (100 < d) × (d < 2 ^ 31)) ⊎ ((b ≡ 0) × (d ≤ 100))

-- The edges of a sensor that sends bits, each by the time since the low before it, the first since the
-- tick `t`; the ticks wrap around.
pub data Sends : ℕ → List ℕ → List Edge → Type 0 where
  quiet : (t : ℕ) → Sends t [] []
  rise :
      {t : ℕ} {bs : List ℕ} {es : List Edge} (e : Edge)
      → e.level ≢ 0
      → Sends t bs es
      → Sends t bs (e ∷ es)
  fall :
      {t : ℕ} {bs : List ℕ} {es : List Edge} (u d b : ℕ)
      → u ≡ (t + d) % 2 ^ 32
      → Codes d b
      → Sends u bs es
      → Sends t (b ∷ bs) (record { level = 0; tick = u } ∷ es)

duration_of-Codes :
    (t u d b : ℕ) → t < 2 ^ 32 → u ≡ (t + d) % 2 ^ 32 → Codes d b → duration_of u t ≡ d
duration_of-Codes t u d b h e (inl c) = omega arith
duration_of-Codes t u d b h e (inr c) = omega arith

bit_of-Codes : (d b : ℕ) → Codes d b → bit_of d ≡ b
bit_of-Codes d b (inl c) = ground arith
bit_of-Codes d b (inr c) = ground arith

-- The bits behind `n` others, stored one by one.
put_all : ℕ → List ℕ → List ℕ → Outcome (List ℕ)
put_all n [] xs = ok xs
put_all n (b ∷ bs) xs = do ys ← put_bit b (count_of (suc n)) xs; put_all (suc n) bs ys

callback_fall :
    (t u d b : ℕ)
    → u ≡ (t + d) % 2 ^ 32
    → Codes d b
    → t < 2 ^ 32
    → (n : ℕ) (xs zs : List ℕ) → put_bit b (count_of (suc n)) xs ≡ ok zs
    → callback
        (record { level = 0; tick = u })
        (record { bit_count = count_of n; bits = xs; start_tick = t })
      ≡ ok (record { bit_count = count_of (suc n); bits = zs; start_tick = u })
unfolding callback on_low
callback_fall t u d b e c h n xs zs stored =
    rw (duration_of-Codes t u d b h e c) (rw (bit_of-Codes d b c) (rw stored))

put_all-deliver :
    {t : ℕ} {bs : List ℕ} {es : List Edge}
    → Sends t bs es
    → t < 2 ^ 32
    → (n : ℕ) (xs ys : List ℕ) → put_all n bs xs ≡ ok ys
    → (u : ℕ) × (deliver es (record { bit_count = count_of n; bits = xs; start_tick = t })
        ≡ ok (record { bit_count = count_of (n + length bs); bits = ys; start_tick = u }))
unfolding put_all deliver
put_all-deliver (quiet t) h n xs ys p = let here : n + 0 ≡ n = omega arith in (t, rw here (cc))
put_all-deliver {t} (rise e k s) h n xs ys p =
    let (u, q) = put_all-deliver s h n xs ys p in
    (
      u,
      rw
          (
            callback_high e (record { bit_count = count_of n; bits = xs; start_tick = t })
                (ne→== e.level 0 k),
            ◌>>=◌,
          )
          q,
    )
put_all-deliver (fall {t = t} {bs = bs} u d b e c s) h n xs ys p =
    let (zs, stored, rest) = >>=-ok (put_bit b (count_of (suc n)) xs) (put_all (suc n) bs) p in
    let (v, q) = put_all-deliver s (omega arith) (suc n) zs ys rest in
    let step : n + suc (length bs) ≡ suc n + length bs = omega arith in
    (v, rw step (rw (callback_fall t u d b e c h n xs zs stored, ◌>>=◌) q))

abbrev pub bits_of : ℕ → List ℕ
bits_of x =
    (x / 128 % 2)
    ∷ (x / 64 % 2)
    ∷ (x / 32 % 2)
    ∷ (x / 16 % 2)
    ∷ (x / 8 % 2)
    ∷ (x / 4 % 2)
    ∷ (x / 2 % 2)
    ∷ (x % 2)
    ∷ []

abbrev packed : ℕ → ℕ
packed x =
    (((((((0 * 2 + x / 128 % 2) * 2 + x / 64 % 2) * 2 + x / 32 % 2) * 2 + x / 16 % 2) * 2
                + x / 8 % 2)
              * 2
            + x / 4 % 2)
          * 2
        + x / 2 % 2)
      * 2
    + x % 2

packed_lem : (x : ℕ) → x < 256 → packed x ≡ x
packed_lem x h = omega arith

abbrev pub frame_bits : (a b c d e : ℕ) → List ℕ
frame_bits a b c d e = bits_of a ++ (bits_of b ++ (bits_of c ++ (bits_of d ++ bits_of e)))

put_all-packed :
    (x y z a b c d e : ℕ)
    → put_all 0 (x ∷ y ∷ z ∷ frame_bits a b c d e) zeros
      ≡ ok (packed a ∷ packed b ∷ packed c ∷ packed d ∷ packed e ∷ [])
unfolding put_all put_bit shift_in
put_all-packed x y z a b c d e = refl

-- A frame of five bytes behind any three bits is delivered whole.
pub deliver-frame :
    (start x y z a b c d e : ℕ) {es : List Edge}
    → start < 2 ^ 32
    → a < 256
    → b < 256
    → c < 256
    → d < 256
    → e < 256
    → Sends start (x ∷ y ∷ z ∷ frame_bits a b c d e) es
    → (u : ℕ) × (deliver es (reset_globals start)
        ≡ ok (record { bit_count = pos 40; bits = a ∷ b ∷ c ∷ d ∷ e ∷ []; start_tick = u }))
deliver-frame start x y z a b c d e h ha hb hc hd he s =
    let whole : put_all 0 (x ∷ y ∷ z ∷ frame_bits a b c d e) zeros ≡ ok (a ∷ b ∷ c ∷ d ∷ e ∷ []) =
      simp (
        put_all-packed x y z a b c d e,
        packed_lem a ha,
        packed_lem b hb,
        packed_lem c hc,
        packed_lem d hd,
        packed_lem e he,
      ) in
    put_all-deliver s h 0 zeros (a ∷ b ∷ c ∷ d ∷ e ∷ []) whole
