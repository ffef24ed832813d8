-- ===== src/Sensor/Wiring.antt =====
-- src/DHT22.c: the reading of the pin, and the values that are cached.
pub mod Rounds
pub mod Outcomes
use aprs_wx.Prelude.{
  Bool, Bytes, List, Outcome, [], codes, exits, negsuc, pos, ℤ, false, if◌then◌else◌, leb, length,
  ltb, ok, suc, true, zero, ℕ, ◌%◌, ◌&&◌, ◌*◌, ◌++◌, ◌+◌, ◌-◌, ◌/◌, ◌==◌, ◌>>=◌, ◌||◌, ◌∷◌,
}
use aprs_wx.Sensor.{has_sign, shift_in, sums_up, zeros}
use aprs_wx.Sensor.Single.{Single}

-- The level that `digitalRead` gives at its first, second, third call behind the start signal.
abbrev pub Pin : Type 0
Pin = ℕ → ℕ

abbrev pub high : ℕ
high = 1

-- `while (digitalRead(DHT_PIN) == lastState && stateDuration < 255) stateDuration++`, from the read `r` and
-- with `left` below 255: the next read, and `stateDuration`.
unfoldable pub wait : Pin → ℕ → ℕ → ℕ → ℕ × ℕ
wait pin last zero r = (r + 1, 255)
wait pin last (suc left) r = elim (pin r == last) [
  | true ↦ wait pin last left (r + 1)
  | false ↦ (r + 1, 255 - suc left)
]

-- The local variables of the loop, with the number of reads.
pub record Scan : Type 0 where
  pub reads : ℕ
  pub last_state : ℕ
  pub state_duration : ℕ
  pub bits_read : ℕ
  pub bits : List ℕ

abbrev pub is_bit : ℕ → Bool
is_bit changes = ltb 2 changes && changes % 2 == 0

-- The bit of a change. `bitsRead` stays far below 256.
unfoldable pub put_bit : Scan → Outcome Scan
put_bit s = do
  xs ← shift_in (if ltb 16 s.state_duration then 1 else 0) (s.bits_read / 8) s.bits
  ok (record s { bits_read = s.bits_read + 1; bits = xs })

-- Behind the wait: the change with the number `changes`.
unfoldable pub on_change : ℕ → Scan → Outcome Scan
unfolding put_bit
on_change changes s = if is_bit changes then put_bit s else ok s

-- The body of the `for` loop.
unfoldable pub on_round : Pin → ℕ → Scan → Outcome Scan
unfolding wait
on_round pin changes s =
    let (r, duration) = wait pin s.last_state 255 s.reads in
    on_change changes (record s { reads = r + 1; last_state = pin r; state_duration = duration })

-- The `for` loop, with `left` rounds below `MAX_TIMINGS`.
unfoldable pub rounds : Pin → ℕ → Scan → Outcome Scan
rounds pin zero s = ok s
rounds pin (suc left) s =
    let next = on_round pin (84 - left) s >>= rounds pin left in
    if ltb s.state_duration 255 then next else ok s

abbrev pub new_scan : Scan
new_scan = record { reads = 0; last_state = high; state_duration = 0; bits_read = 0; bits = zeros }

-- The values that are kept between two calls.
pub record Cache (S : Type 0) : Type 0 where
  pub humidity : S
  pub celsius : S

module _ {S : Type 0} ⦃f : Single S⦄ where
  abbrev pub bad_value : S
  bad_value = f.literal 9999 1

  -- `cachedH` and `cachedC` at the start.
  abbrev pub empty_cache : Cache S
  empty_cache = record { humidity = bad_value; celsius = bad_value }

  abbrev pub humidity_of : ℕ → ℕ → S
  humidity_of a b = f.tenth (f.of_int (a * 256 + b))

  abbrev pub celsius_of : ℕ → ℕ → S
  celsius_of c d = let t = f.tenth (f.of_int (c * 256 + d)) in if has_sign c then f.negated t else t

  abbrev pub fahrenheit_of : S → S
  fahrenheit_of t = f.add (f.mul t (f.literal 18 1)) (f.literal 32 0)

  -- The line that is printed for two values.
  unfoldable pub print_values : Bytes → Cache S → Bytes
  print_values kind v =
      if f.same v.humidity bad_value || f.same v.celsius bad_value
      then codes "Data not good, Skipped\n"
      else kind
        ++ (codes ": "
            ++ (f.show v.celsius
                ++ (codes " *C  ("
                    ++ (f.show (fahrenheit_of v.celsius)
                        ++ (codes "*F)  Humidity: " ++ (f.show v.humidity ++ codes "%\n"))))))

  -- The check of the data, with the new cache and the line.
  unfoldable pub check : ℕ → List ℕ → Cache S → Cache S × Bytes
  unfolding print_values
  check n (a ∷ b ∷ c ∷ d ∷ e ∷ []) k =
      let v : Cache S = record { humidity = humidity_of a b; celsius = celsius_of c d } in
      if leb 40 n && sums_up a b c d e
      then (v, print_values (codes "Temperature") v)
      else (k, print_values (codes "Cached Temp") k)
  check n _ k = (k, print_values (codes "Cached Temp") k)

  -- `read_DHT_Data`.
  unfoldable pub read_dht_data : Pin → Cache S → Outcome (Cache S × Bytes)
  read_dht_data pin k = do s ← rounds pin 85 new_scan; ok (check s.bits_read s.bits k)

  -- `n` calls in the loop of `main`, on the pin of each, with the lines that are printed.
  unfoldable pub read_all : ℕ → (ℕ → Pin) → Cache S → Outcome (List Bytes)
  read_all zero pins k = ok []
  read_all (suc n) pins k = do
    (k', line) ← read_dht_data (pins 0) k
    lines ← read_all n (λ i. pins (i + 1)) k'
    ok (line ∷ lines)

-- `wiringPiSetup() == -1`.
abbrev pub is_failed : ℤ → Bool
is_failed (negsuc n) = n == 0
is_failed (pos n) = false

-- `main`, which returns 0 behind its 5000 calls.
unfoldable pub wiring_main : (S : Type 0) ⦃f : Single S⦄ → ℤ → (ℕ → Pin) → Outcome (List Bytes)
wiring_main S setup pins =
    let lines = read_all 5000 pins (empty_cache {S = S}) in if is_failed setup then exits else lines
