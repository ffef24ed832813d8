-- ===== src/Sensor/Pigpio/Ending.antt =====
-- The end of the attempts of src/dhtxx_pigpio.c.
use aprs_wx.Prelude.{
  All, Bool, Bytes, List, Outcome, [], arith, false, length, ok, pos, refl, suc, true, zero, ℕ, ℤ,
  ◌+◌, ◌<◌, ◌>>=◌, ◌∷◌, ◌≡◌, ◌≤◌,
}
use aprs_wx.Sensor.Pigpio.{Attempt, Device, attempt_loop, check, on_pass}
use aprs_wx.Sensor.Pigpio.Edges.{deliver_from, deliver_outcomes, delivered, lows}
use aprs_wx.Sensor.Single.{Single}

-- A pass with no more lows than the array has room for.
abbrev pub HasRoom : Attempt → Type 0
HasRoom a = lows a.during + lows a.after ≤ 43

-- How the program ends with the lines of at most `n` passes.
abbrev pub Ends : ℕ → Outcome (List Bytes) → Type 0
Ends n o = (lines : List Bytes) × (o ≡ ok lines) × (0 < length lines) × (length lines ≤ n)

on_pass-Ends :
    (again : ℤ → Outcome (List Bytes)) (n : ℕ) (line : Bytes) (valid : Bool)
    → (0 < n → Ends n (again (pos n)))
    → Ends (suc n) (on_pass again false (pos (suc n)) (line, valid))
unfolding on_pass
on_pass-Ends again n line true h = (line ∷ [], refl, omega arith, omega arith)
on_pass-Ends again zero line false h = (line ∷ [], refl, omega arith, omega arith)
on_pass-Ends again (suc n) line false h =
    let (lines, e, some_, few) = h (omega arith) in
    (line ∷ lines, rw (e, ◌>>=◌), omega arith, omega arith)

module _ (S : Type 0) ⦃f : Single S⦄ where
  pass-returns :
      (device : Device) (looping : Bool) (tries : ℤ) (a : Attempt) (later : List Attempt)
      → HasRoom a
      → (r : Bytes × Bool) × (attempt_loop S device looping tries (a ∷ later)
          ≡ on_pass (λ t. attempt_loop S device looping t later) looping tries r)
  unfolding attempt_loop
  pass-returns device looping tries a later h =
      let (g, d, b) = delivered (deliver_outcomes a.start a.during) (omega arith) in
      let (_, d', _) = delivered (deliver_from a.after (lows a.during) g b (omega arith)) h in
      (check S device g.bit_count g.bits, rw (d, ◌>>=◌) (rw (d', ◌>>=◌)))

  -- Without the loop option `tries` passes are enough, each with at most 43 lows: the program prints at
  -- least one line and at most one for each try, and ends.
  pub attempt_loop-returns :
      (device : Device) (n : ℕ) (passes : List Attempt)
      → 0 < n
      → n ≤ length passes
      → All HasRoom passes
      → Ends n (attempt_loop S device false (pos n) passes)
  attempt_loop-returns device zero passes h k r = absurd (omega arith)
  attempt_loop-returns device (suc n) [] h k r = absurd (omega arith)
  attempt_loop-returns device (suc n) (a ∷ passes) h k r =
      let ((line, valid), e) = pass-returns device false (pos (suc n)) a passes r.0 in
      rw e (
        on_pass-Ends (λ t. attempt_loop S device false t passes) n line valid
          (λ p. attempt_loop-returns device n passes p (omega arith) r.1))
