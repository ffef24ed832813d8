-- ===== src/Sensor/Wiring/Outcomes.antt =====
-- How `read_DHT_Data` of src/DHT22.c ends, by the changes of the pin.
use aprs_wx.Prelude.{
  List, Outcome, [], ap, ◌∙◌, arith, codes, lt→leb, lt→ltb, ok, refl, suc, undefined, zero, ℕ, ◌+◌,
  ◌-◌, ◌/◌, ◌<◌, ◌>>=◌, ◌∷◌, ◌≡◌, Bytes, le→ltb,
}
use mathlib.Core.Path.{subst}
use aprs_wx.Sensor.Bits.{shift_in_outside}
use aprs_wx.Sensor.Single.{Single}
use aprs_wx.Sensor.Wiring.{
  Cache, Pin, Scan, check, high, new_scan, on_change, on_round, print_values, put_bit,
  read_dht_data, rounds,
}
use aprs_wx.Sensor.Wiring.Rounds.{
  Behind, Changes, Keeps, bits_behind, on_change-inside, rounds-Changes, wait_silent,
}

-- A pin by its changes behind the start signal: all of a transmission, with the release of the line, come
-- in time; or the pin keeps its level for 255 reads behind `m` changes, so that the data are not whole.
pub data Line (pin : Pin) : Type 0 where
  complete : {r last : ℕ} → Changes pin 0 high 84 r last → Line pin
  silent : {m r last : ℕ} → m < 82 → Changes pin 0 high m r last → Keeps pin last r 255 → Line pin

new_scan-Behind : Behind 0 new_scan
new_scan-Behind = record { counted = refl; five = refl; short = omega arith }

-- The last round of the loop writes behind the array.
on_round-overrun : (pin : Pin) (s : Scan) → Behind 84 s → on_round pin 84 s ≡ undefined
unfolding on_round on_change put_bit
on_round-overrun pin s b =
    let c : s.bits_read / 8 ≡ 5 = omega (arith, b.counted) in
    rw c (rw (shift_in_outside _ 5 s.bits (omega (arith, b.five)), ◌>>=◌))

-- The round in which the pin is silent.
on_round-silent :
    (pin : Pin) (n : ℕ) (s : Scan)
    → n < 84
    → Behind n s
    → Keeps pin s.last_state s.reads 255
    → (s' : Scan) × (on_round pin n s ≡ ok s')
      × (s'.bits_read ≡ bits_behind (n + 1))
      × (s'.state_duration ≡ 255)
unfolding on_round
on_round-silent pin n s h b keeps =
    let found = wait_silent pin s.last_state 255 s.reads keeps in
    let seen : Scan = record s {
      reads = s.reads + 255 + 1 + 1;
      last_state = pin (s.reads + 255 + 1);
      state_duration = 255;
    } in
    let (s', e, c, l, r, level, t) = on_change-inside n seen h b.counted b.five in
    (s', rw found e, c, t)

rounds-end : (pin : Pin) (left : ℕ) (s : Scan) → s.state_duration ≡ 255 → rounds pin left s ≡ ok s
unfolding rounds
rounds-end pin zero s h = refl
rounds-end pin (suc left) s h = rw (le→ltb s.state_duration 255 (omega arith))

rounds_step :
    (pin : Pin) (left : ℕ) (s : Scan)
    → s.state_duration < 255
    → rounds pin (suc left) s ≡ (on_round pin (84 - left) s >>= rounds pin left)
unfolding rounds
rounds_step pin left s h = rw (lt→ltb s.state_duration 255 h)

rounds_complete :
    (pin : Pin) {r last : ℕ} → Changes pin 0 high 84 r last → rounds pin 85 new_scan ≡ undefined
rounds_complete pin changes =
    let (s, e, b, r, level) =
      rounds-Changes pin changes 0 1 new_scan (omega arith) (omega arith) new_scan-Behind refl
        refl in
    rw e (rw (rounds_step pin 0 s b.short) (rw (on_round-overrun pin s b, ◌>>=◌)))

rounds_from-silent :
    (pin : Pin) (n left : ℕ) (s : Scan)
    → n < 84
    → n + suc left ≡ 85
    → Behind n s
    → Keeps pin s.last_state s.reads 255
    → (s' : Scan) × (rounds pin (suc left) s ≡ ok s') × (s'.bits_read ≡ bits_behind (n + 1))
rounds_from-silent pin n left s h all b keeps =
    let (s', e, c, d) = on_round-silent pin n s h b keeps in
    let number : 84 - left ≡ n = omega arith in
    (
      s',
      rw (rounds_step pin left s b.short) (rw number (rw (e, ◌>>=◌) (rounds-end pin left s' d))),
      c,
    )

rounds-silent :
    (pin : Pin) (m : ℕ) {r last : ℕ}
    → m < 84
    → Changes pin 0 high m r last
    → Keeps pin last r 255
    → (s : Scan) × (rounds pin 85 new_scan ≡ ok s) × (s.bits_read ≡ bits_behind (m + 1))
rounds-silent pin m h changes keeps =
    let (s, e, b, r, level) =
      rounds-Changes pin changes 0 (suc (84 - m)) new_scan (omega arith) (omega arith)
        new_scan-Behind refl refl in
    let from : 0 + m ≡ m = omega arith in
    let (s', e', c) =
      rounds_from-silent pin m (84 - m) s h (omega arith) (subst (λ k. Behind k s) from b)
        (rw (r, level) keeps) in
    let all : 85 ≡ m + suc (84 - m) = omega arith in
    (s', ap (λ (k : ℕ). rounds pin k new_scan) all ∙ e ∙ e', c)

module _ {S : Type 0} ⦃f : Single S⦄ where
  check_few :
      (n : ℕ) (xs : List ℕ) (k : Cache S)
      → n < 40
      → check n xs k ≡ (k, print_values (codes "Cached Temp") k)
  unfolding check
  check_few n [] k h = refl
  check_few n (a ∷ []) k h = refl
  check_few n (a ∷ b ∷ []) k h = refl
  check_few n (a ∷ b ∷ c ∷ []) k h = refl
  check_few n (a ∷ b ∷ c ∷ d ∷ []) k h = refl
  check_few n (a ∷ b ∷ c ∷ d ∷ e ∷ []) k h = rw (lt→leb 40 n h)
  check_few n (a ∷ b ∷ c ∷ d ∷ e ∷ x ∷ xs) k h = refl

  -- What a call comes to: behaviour that is not defined, or the cached values.
  abbrev pub ending : {pin : Pin} → Line pin → Cache S → Outcome (Cache S × Bytes)
  ending (complete changes) k = undefined
  ending (silent few changes keeps) k = ok (k, print_values (codes "Cached Temp") k)

  -- A call in which the pin makes the 84 changes of a transmission, each within 254 reads, writes behind the
  -- array `data`; one in which the pin falls silent for 255 reads behind fewer than 82 changes keeps the
  -- cached values and prints the line on them, which skips them if one of them is `BAD_VALUE`.
  pub read_dht_data-ending :
      (pin : Pin) (line : Line pin) (k : Cache S) → read_dht_data pin k ≡ ending line k
  unfolding read_dht_data
  read_dht_data-ending pin (complete changes) k = rw (rounds_complete pin changes, ◌>>=◌)
  read_dht_data-ending pin (silent {m = m} few changes keeps) k =
      let (s, e, c) = rounds-silent pin m (omega arith) changes keeps in
      rw (e, ◌>>=◌) (rw (check_few s.bits_read s.bits k (omega arith)))
