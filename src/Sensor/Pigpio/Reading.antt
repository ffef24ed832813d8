-- ===== src/Sensor/Pigpio/Reading.antt =====
-- What `main` of src/dhtxx_pigpio.c prints for a transmission of a DHT22.
use aprs_wx.Prelude.{
  Bool, List, [], arith, ==_iff, false, if◌then◌else◌, ok, refl, true, ℕ, ℤ, ◌%◌, ◌*◌, ◌+◌, ◌/◌,
  ◌<◌, ◌==◌, ◌>>=◌, ◌^◌, ◌∷◌, ◌≡◌, pos,
}
use aprs_wx.Sensor.Pigpio.{
  Attempt, Device, Edge, Globals, attempt_loop, check, deliver, dht22, on_pass, reading_line,
  celsius_of, humidity_of,
}
use aprs_wx.Sensor.Pigpio.Edges.{callback_high, lows}
use aprs_wx.Sensor.Pigpio.Frame.{Sends, deliver-frame, frame_bits}
use aprs_wx.Sensor.Single.{Single}

deliver_high : (es : List Edge) (g : Globals) → lows es ≡ 0 → deliver es g ≡ ok g
unfolding deliver
deliver_high [] g h = refl
deliver_high (e ∷ es) g h =
    let high : (e.level == 0) ≡ false = ground arith in
    rw (callback_high e g high, ◌>>=◌) (deliver_high es g (ground arith))

-- The third byte of the frame: the sign bit and the high part of the temperature.
abbrev pub sign_byte : Bool → ℕ → ℕ
sign_byte negative t = t / 256 + (if negative then 128 else 0)

-- The bits that a DHT22 sends for a humidity and a temperature in tenths, with the check sum.
abbrev pub dht22_bits : (h : ℕ) → Bool → (t : ℕ) → List ℕ
dht22_bits h negative t =
    frame_bits (h / 256) (h % 256) (sign_byte negative t) (t % 256)
      ((h / 256 + h % 256 + sign_byte negative t + t % 256) % 256)

sign_byte-lt : (negative : Bool) (t : ℕ) → t < 32768 → sign_byte negative t < 256
sign_byte-lt true t h = omega arith
sign_byte-lt false t h = omega arith

module _ (S : Type 0) ⦃f : Single S⦄ where
  -- A number of tenths with its sign.
  abbrev pub signed_tenths : Bool → ℕ → S
  signed_tenths negative t =
      let v = f.div (f.of_int t) (f.literal 10 0) in if negative then f.negated v else v

  celsius_of-sign_byte :
      (negative : Bool) (t : ℕ)
      → t < 32768
      → celsius_of dht22 (sign_byte negative t) (t % 256) ≡ signed_tenths negative t
  celsius_of-sign_byte true t h =
      let low : (t / 256 + 128) % 128 * 256 + t % 256 ≡ t = omega arith in
      let signed : (t / 256 + 128) / 128 % 2 ≡ 1 = omega arith in rw low (rw signed)
  celsius_of-sign_byte false t h =
      let low : (t / 256 + 0) % 128 * 256 + t % 256 ≡ t = omega arith in
      let signed : (t / 256 + 0) / 128 % 2 ≡ 0 = omega arith in rw low (rw signed)

  humidity_of-tenths : (h : ℕ) → humidity_of dht22 (h / 256) (h % 256) ≡ signed_tenths false h
  humidity_of-tenths h =
      let whole : h / 256 * 256 + h % 256 ≡ h = omega arith in rw (whole, humidity_of)

  check-valid :
      (device : Device) (a b c d e : ℕ)
      → e ≡ (a + b + c + d) % 256
      → check S device (pos 40) (a ∷ b ∷ c ∷ d ∷ e ∷ [])
        ≡ (reading_line {S = S} (celsius_of device c d) (humidity_of device a b), true)
  unfolding check
  check-valid device a b c d e h = rw ((==_iff e ((a + b + c + d) % 256)).1 h)

  -- For the device DHT22 and without the loop option: if in a pass that starts at a tick of 32 bits the
  -- edges send a humidity below 6553.6 percent and a temperature below 3276.8 degrees, each in tenths and the temperature with its sign, as
  -- 40 bits with the sum, behind three lows that are no data, and no low stands behind them, then this
  -- pass is the last, and its one line is the reading of just this temperature and this humidity.
  pub attempt_loop-dht22 :
      (start x y z h t : ℕ) (negative : Bool) (during after : List Edge) (tries : ℤ)
      (later : List Attempt)
      → start < 2 ^ 32
      → h < 65536
      → t < 32768
      → Sends start (x ∷ y ∷ z ∷ dht22_bits h negative t) during
      → lows after ≡ 0
      → attempt_loop S dht22 false tries
          (record { start = start; during = during; after = after } ∷ later)
        ≡ ok (reading_line {S = S} (signed_tenths negative t) (signed_tenths false h) ∷ [])
  unfolding attempt_loop on_pass
  attempt_loop-dht22 start x y z h t negative during after tries later hs hh ht sent silent =
      let (u, whole) =
        deliver-frame start x y z (h / 256) (h % 256) (sign_byte negative t) (t % 256) _ hs
          (omega arith) (omega arith) (sign_byte-lt negative t ht) (omega arith) (omega arith)
          sent in
      rw (whole, ◌>>=◌)
        (rw (deliver_high after _ silent, ◌>>=◌)
          (rw
            (check-valid dht22 (h / 256) (h % 256) (sign_byte negative t) (t % 256) _ refl, on_pass)
            (rw (celsius_of-sign_byte negative t ht) (rw (humidity_of-tenths h)))))
