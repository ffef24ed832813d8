-- ===== src/Sensor/Wiring/Rounds.antt =====
-- The rounds of the loop of src/DHT22.c, by the changes of the pin.
use aprs_wx.Prelude.{
  if◌then◌else◌, ap, arith, false, length, ltb, ok, refl, suc, true, zero, ℕ, ◌%◌, ◌+◌, ◌-◌, ◌/◌,
  ◌<◌, ◌==◌, ◌>>=◌, ◌≡◌, ◌∙◌, ◌≢◌, ◌≤◌, Bool-cases, inl, inr, ne→==, lt→ltb, ==_iff,
}
use aprs_wx.Sensor.Bits.{shift_in_inside}
use aprs_wx.Sensor.Wiring.{Pin, Scan, is_bit, on_change, on_round, put_bit, rounds, wait}

-- From the read `r` the pin keeps the level `last` for `n` reads.
abbrev pub Keeps : Pin → ℕ → ℕ → ℕ → Type 0
Keeps pin last r n = (j : ℕ) → j < n → pin (r + j) ≡ last

-- From the read `r`, with the level `last`, the pin changes `n` times, each time within 254 reads; then
-- the read is `r'` and the level `last'`.
pub data Changes (pin : Pin) : ℕ → ℕ → ℕ → ℕ → ℕ → Type 0 where
  none : (r last : ℕ) → Changes pin r last 0 r last
  change :
      {last r' last' : ℕ} (r d n : ℕ)
      → d < 255
      → Keeps pin last r d
      → pin (r + d) ≢ last
      → Changes pin (r + d + 2) (pin (r + d + 1)) n r' last'
      → Changes pin r last (suc n) r' last'

Keeps-now : (pin : Pin) (last r n : ℕ) → Keeps pin last r (suc n) → (pin r == last) ≡ true
Keeps-now pin last r n keeps =
    let here : r + 0 ≡ r = omega arith in
    (==_iff (pin r) last).1 (rw here at (keeps 0 (omega arith)))

Keeps-next : (pin : Pin) (last r n : ℕ) → Keeps pin last r (suc n) → Keeps pin last (r + 1) n
Keeps-next pin last r n keeps j h =
    let next : r + 1 + j ≡ r + suc j = omega arith in rw next (keeps (suc j) (omega arith))

wait_change :
    (pin : Pin) (last left r d : ℕ)
    → d < left
    → left ≤ 255
    → Keeps pin last r d
    → pin (r + d) ≢ last
    → wait pin last left r ≡ (r + d + 1, 255 - left + d)
unfolding wait
wait_change pin last zero r d h k keeps differs = absurd (omega arith)
wait_change pin last (suc left) r zero h k keeps differs =
    let here : r + 0 ≡ r = omega arith in
    let now : (pin r == last) ≡ false = ne→== (pin r) last (rw here at differs) in
    rw (now, wait) (ground arith)
wait_change pin last (suc left) r (suc d) h k keeps differs =
    let next : r + 1 + d ≡ r + suc d = omega arith in
    let rest =
      wait_change pin last left (r + 1) d (omega arith) (omega arith)
        (Keeps-next pin last r d keeps) (rw next differs) in
    rw (Keeps-now pin last r d keeps, wait) (rw rest (ground arith))

pub wait_silent :
    (pin : Pin) (last left r : ℕ)
    → Keeps pin last r left
    → wait pin last left r ≡ (r + left + 1, 255)
unfolding wait
wait_silent pin last zero r keeps = let here : r + 0 ≡ r = omega arith in rw here
wait_silent pin last (suc left) r keeps =
    rw (Keeps-now pin last r left keeps, wait)
      (rw (wait_silent pin last left (r + 1) (Keeps-next pin last r left keeps)) (ground arith))

-- The bits that `n` rounds have stored.
abbrev pub bits_behind : ℕ → ℕ
bits_behind n = (n - 3) / 2

-- The variables of the loop behind `n` rounds that all saw a change.
pub record Behind (n : ℕ) (s : Scan) : Type 0 where
  pub counted : s.bits_read ≡ bits_behind n
  pub five : length s.bits ≡ 5
  pub short : s.state_duration < 255

-- The round with the number `n`, where its bit is in the array.
pub on_change-inside :
    (n : ℕ) (s : Scan)
    → n < 84
    → s.bits_read ≡ bits_behind n
    → length s.bits ≡ 5
    → (s' : Scan) × (on_change n s ≡ ok s')
      × (s'.bits_read ≡ bits_behind (n + 1))
      × (length s'.bits ≡ 5)
      × (s'.reads ≡ s.reads)
      × (s'.last_state ≡ s.last_state)
      × (s'.state_duration ≡ s.state_duration)
unfolding on_change put_bit
on_change-inside n s h c five = elim (Bool-cases (is_bit n)) [
  | inl bit ↦
      let even : (2 < n) × (n % 2 ≡ 0) = ground (arith, bit) in
      let b : ℕ = if ltb 16 s.state_duration then 1 else 0 in
      let (ys, e, l) = shift_in_inside b (s.bits_read / 8) s.bits (omega arith) in
      rw bit (
        record s { bits_read = s.bits_read + 1; bits = ys },
        rw (e, ◌>>=◌),
        omega arith,
        omega arith,
        refl,
        refl,
        refl,
      )
  | inr no_bit ↦ rw no_bit (s, refl, ground arith, five, refl, refl, refl)
]

-- A round in which the pin changes in time.
on_round_change :
    (pin : Pin) (n d : ℕ) (s : Scan)
    → n < 84
    → Behind n s
    → d < 255
    → Keeps pin s.last_state s.reads d
    → pin (s.reads + d) ≢ s.last_state
    → (s' : Scan) × (on_round pin n s ≡ ok s')
      × Behind (n + 1) s'
      × (s'.reads ≡ s.reads + d + 2)
      × (s'.last_state ≡ pin (s.reads + d + 1))
unfolding on_round
on_round_change pin n d s h b short keeps differs =
    let found : wait pin s.last_state 255 s.reads ≡ (s.reads + d + 1, d) =
      wait_change pin s.last_state 255 s.reads d short (omega arith) keeps differs ∙ ground arith in
    let seen : Scan = record s {
      reads = s.reads + d + 1 + 1;
      last_state = pin (s.reads + d + 1);
      state_duration = d;
    } in
    let (s', e, c, l, r, level, t) = on_change-inside n seen h b.counted b.five in
    (s', rw found e, record { counted = c; five = l; short = omega arith }, omega arith, level)

-- The rounds in which the pin changes in time leave the loop going on.
pub rounds-Changes :
    (pin : Pin) {r last m r' last' : ℕ}
    → Changes pin r last m r' last'
    → (n left : ℕ) (s : Scan) → n + m + left ≡ 85
    → 0 < left
    → Behind n s
    → s.reads ≡ r
    → s.last_state ≡ last
    → (s' : Scan) × (rounds pin (m + left) s ≡ rounds pin left s')
      × Behind (n + m) s'
      × (s'.reads ≡ r')
      × (s'.last_state ≡ last')
unfolding rounds
rounds-Changes pin (none r last) n left s e h b at_ level =
    let here : 0 + left ≡ left = omega arith in
    let same : n + 0 ≡ n = omega arith in (s, rw here, rw same b, at_, level)
rounds-Changes pin (change r d m short keeps differs more) n left s e h b at_ level =
    let (s', e', b', r', l') =
      on_round_change pin n d s (omega arith) b short (rw (at_, level) keeps)
        (rw (at_, level) differs) in
    let (s'', e'', b'', r'', l'') =
      rounds-Changes pin more (n + 1) left s' (omega arith) h b' (omega arith)
        (l' ∙ ap (λ (k : ℕ). pin (k + d + 1)) at_) in
    let next : suc m + left ≡ suc (m + left) = omega arith in
    let number : 84 - (m + left) ≡ n = omega arith in
    let total : n + suc m ≡ n + 1 + m = omega arith in
    (
      s'',
      rw next (rw (number, lt→ltb s.state_duration 255 b.short) (rw (e', ◌>>=◌) e'')),
      rw total b'',
      r'',
      l'',
    )
