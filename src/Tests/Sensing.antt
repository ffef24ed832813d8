-- ===== src/Tests/Sensing.antt =====
-- The sensor programs on chosen inputs.
use aprs_wx.Prelude.{
  Bool, Bytes, List, [], arith, codes, false, if◌then◌else◌, length, ltb, ok, pos, refl, some, suc,
  true, zero, ℕ, ◌%◌, ◌&&◌, ◌*◌, ◌+◌, ◌/◌, ◌==◌, ◌^◌, ◌∷◌, ◌≡◌, ◌<◌, ◌≤◌, inl, inr, undefined,
}
use aprs_wx.Sensor.Pigpio.{
  Attempt, Edge, attempt_loop, deliver, dht11, dht22, reading_line, reset_globals,
}
use aprs_wx.Sensor.Pigpio.Arguments.{
  Board, default_options, on_argument, parse, sensor_main, version_line, pigpio_line,
}
use aprs_wx.Sensor.Pigpio.Edges.{Delivery, deliver_outcomes, lows}
use aprs_wx.Sensor.Pigpio.Frame.{Sends, fall, quiet}
use aprs_wx.Sensor.Pigpio.Process.{sensor_main-returns}
use aprs_wx.Sensor.Pigpio.Reading.{attempt_loop-dht22, dht22_bits, signed_tenths}
use aprs_wx.Sensor.Single.{Single}
use aprs_wx.Std.Number.{strtol}
use aprs_wx.Std.Text.{c_string, to_lower}
use aprs_wx.Sensor.Wiring.{Pin, empty_cache, read_dht_data}
use aprs_wx.Sensor.Wiring.Outcomes.{complete, read_dht_data-ending}
use aprs_wx.Sensor.Wiring.Rounds.{Changes, change, none}

-- Floats as formulas.
data Term : Type 0 where
  literal : ℕ → ℕ → Term
  of_int : ℕ → Term
  add mul div : Term → Term → Term
  negated tenth : Term → Term

instance abbrev term_single : Single Term
term_single = record {
  literal = literal;
  of_int = of_int;
  add = add;
  mul = mul;
  div = div;
  negated = negated;
  tenth = tenth;
  same = λ a b. false;
  show = λ a. b'?' ∷ [];
}

-- The edges of bits that are sent with 120 and 78 microseconds between the lows.
abbrev gap : ℕ → ℕ
gap b = if b == 0 then 78 else 120

abbrev edges_of : ℕ → List ℕ → List Edge
edges_of t [] = []
edges_of t (b ∷ bs) = let u = (t + gap b) % 2 ^ 32 in record { level = 0; tick = u } ∷ edges_of u bs

abbrev are_bits : List ℕ → Bool
are_bits [] = true
are_bits (b ∷ bs) = ltb b 2 && are_bits bs

edges_of-Sends : (t : ℕ) (bs : List ℕ) → are_bits bs ≡ true → Sends t bs (edges_of t bs)
edges_of-Sends t [] h = quiet t
edges_of-Sends t (zero ∷ bs) h =
    fall _ 78 0 refl (inr (refl, omega arith)) (edges_of-Sends ((t + 78) % 2 ^ 32) bs h)
edges_of-Sends t (suc zero ∷ bs) h =
    fall _ 120 1 refl (inl (refl, omega arith, omega arith))
      (edges_of-Sends ((t + 120) % 2 ^ 32) bs h)
edges_of-Sends t (suc (suc b) ∷ bs) h = absurd (ground arith)

-- 65.2 percent and -10.1 degrees.
abbrev sent : List ℕ
sent = 1 ∷ 1 ∷ 0 ∷ dht22_bits 652 true 101

abbrev pass : Attempt
pass = record { start = 4294967000; during = edges_of 4294967000 sent; after = [] }

attempt_loop-dht22_example :
    attempt_loop Term dht22 false (pos 3) (pass ∷ [])
    ≡ ok (reading_line (signed_tenths Term true 101) (signed_tenths Term false 652) ∷ [])
attempt_loop-dht22_example =
    attempt_loop-dht22 Term 4294967000 1 1 0 652 101 true pass.during [] (pos 3) [] (omega arith)
      (omega arith) (omega arith) (edges_of-Sends 4294967000 sent refl) refl

-- One low more than the array has room for.
abbrev too_many : List Edge
too_many = edges_of 7 (1 ∷ sent)

deliver_outcomes_example : Delivery (lows too_many) (deliver too_many (reset_globals 7))
deliver_outcomes_example = deliver_outcomes 7 too_many

abbrev words : List Bytes
words = codes "dht11" ∷ codes "17" ∷ codes "99" ∷ []

abbrev board : Board
board = record { initialised = pos 79; alert = λ gpio. pos 0 }

abbrev quiet_pass : Attempt
quiet_pass = record { start = 0; during = []; after = [] }

words-parse :
    parse words default_options ≡ ok (some (record { device = dht11; gpio = 17; looping = false }))
unfolding parse on_argument to_lower strtol c_string
words-parse = refl

sensor_main-returns_example :
    (readings : List Bytes) × (attempt_loop Term dht11 false
        (pos 3)
        (quiet_pass ∷ pass ∷ quiet_pass ∷ [])
      ≡ ok readings)
    × (sensor_main Term words board (quiet_pass ∷ pass ∷ quiet_pass ∷ [])
        ≡ ok (record {
          exit_status = pos 0;
          lines = version_line ∷ pigpio_line (pos 79) ∷ readings;
        }))
    × (0 < length readings)
    × (length readings ≤ 3)
sensor_main-returns_example =
    sensor_main-returns Term words (record { device = dht11; gpio = 17; looping = false }) board
      (quiet_pass ∷ pass ∷ quiet_pass ∷ []) words-parse refl refl (λ gpio low up. refl)
      (omega arith) (omega arith)

-- A pin that changes with every second read.
abbrev quick : Pin
quick n = n / 2 % 2

quick-Changes : (n q : ℕ) → Changes quick (q * 2) ((q + 1) % 2) n ((q + n) * 2) ((q + n + 1) % 2)
quick-Changes zero q = let here : q + 0 ≡ q = omega arith in rw here (none (q * 2) ((q + 1) % 2))
quick-Changes (suc n) q =
    let total : q + suc n ≡ q + 1 + n = omega arith in
    let read : (q + 1) * 2 ≡ q * 2 + 0 + 2 = omega arith in
    let level : (q + 1 + 1) % 2 ≡ quick (q * 2 + 0 + 1) = omega arith in
    rw total (
      change (q * 2) 0 n (omega arith) (λ j h. elim h [ ]) (omega arith)
        (rw (read, level) at (quick-Changes n (q + 1))))

read_dht_data-ending_example : read_dht_data quick (empty_cache {S = Term}) ≡ undefined
read_dht_data-ending_example =
    read_dht_data-ending quick (complete (quick-Changes 84 0)) empty_cache
