-- ===== src/Sensor/Pigpio/Arguments.antt =====
-- The arguments of src/dhtxx_pigpio.c, and `main` as a whole.
use aprs_wx.Prelude.{
  Bool, Bytes, List, Option, Outcome, [], codes, equal, false, if◌then◌else◌, leb, ltb, map, negsuc,
  none, ok, pos, some, true, undefined, ℕ, ℤ, ◌++◌, ◌&&◌, ◌==◌, ◌>>=◌, ◌^◌, ◌∷◌, is_zero,
}
use aprs_wx.Std.Number.{print_signed, strtol}
use aprs_wx.Std.Text.{to_lower}
use aprs_wx.Sensor.Pigpio.{Attempt, Device, attempt_loop, dht11, dht22}
use aprs_wx.Sensor.Single.{Single}

-- The variables that the arguments set.
pub record Options : Type 0 where
  pub device : Device
  pub gpio : ℕ
  pub looping : Bool

-- `DEFAULT_DEVICE`, `DEFAULT_GPIO` and `NO_LOOP`.
abbrev pub default_options : Options
default_options = record { device = dht22; gpio = 4; looping = false }

-- `!strcasecmp(a, b)`.
abbrev pub same_letters : Bytes → Bytes → Bool
same_letters a b = equal (map to_lower a) (map to_lower b)

-- `temp_gpio > 1 && temp_gpio <= 31`, on the result of `atoi`; a number outside `int` is undefined.
abbrev pub on_pin : ℤ → Options → Outcome Options
on_pin (pos n) o =
    if ltb n (2 ^ 31)
    then ok (if ltb 1 n && leb n 31 then record o { gpio = n } else o)
    else undefined
on_pin (negsuc n) o = if ltb n (2 ^ 31) then ok o else undefined

-- The comparisons of one argument with the words.
unfoldable pub on_word : Bytes → Options → Options
on_word s o =
    let o' = if same_letters s (codes "DHT11") then record o { device = dht11 } else o in
    let o'' = if same_letters s (codes "DHT22") then record o' { device = dht22 } else o' in
    if same_letters s (codes "loop") then record o'' { looping = true } else o''

-- One argument that is not `help`.
unfoldable pub on_argument : Bytes → Options → Outcome Options
unfolding on_word
on_argument s o = on_pin (strtol s) (on_word s o)

-- The loop over the arguments; nothing where one of them asks for help.
unfoldable pub parse : List Bytes → Options → Outcome (Option Options)
parse [] o = ok (some o)
parse (s ∷ args) o =
    let next = on_argument s o >>= parse args in
    if same_letters s (codes "help") then ok none else next

-- The result of `main`, and the lines that it prints.
pub record Printed : Type 0 where
  pub exit_status : ℤ
  pub lines : List Bytes

-- The first line, with `VERSION`.
abbrev pub version_line : Bytes
version_line = codes "dhtXX_sensor.c - v0.94.2\n"

abbrev pub usage_lines : List Bytes
usage_lines =
    codes "Usage: sudo ./dhtXX_sensor [help] [DHTXX] [loop] [nnn] \n"
    ∷ codes "    help  -   prints this message and exits\n"
    ∷ codes "    DHTXX -   sensor type DHT11 or DHT22, default DHT11\n"
    ∷ codes "    loop  -   causes the program to run in loop\n"
    ∷ codes "    nnn   -   GPIO the sensor is attached to (default 4)\n"
    ∷ []

-- The line on the library, with the result of `gpioInitialise`.
abbrev pub pigpio_line : ℤ → Bytes
pigpio_line version = codes "pigpio - V" ++ (print_signed version ++ codes "\n")

-- The results of `gpioInitialise` and of `gpioSetAlertFunc`.
pub record Board : Type 0 where
  pub initialised : ℤ
  pub alert : ℕ → ℤ

-- `version == PI_INIT_FAILED`, which is -1.
abbrev pub is_failed : ℤ → Bool
is_failed (negsuc n) = n == 0
is_failed (pos n) = false

-- `return -1` behind some lines.
abbrev pub refused : List Bytes → Outcome Printed
refused lines = ok (record { exit_status = negsuc 0; lines = lines })

module _ (S : Type 0) ⦃f : Single S⦄ where
  -- `main` behind the arguments.
  unfoldable pub read_sensor : Board → List Attempt → Option Options → Outcome Printed
  read_sensor board passes none = ok (record { exit_status = pos 0; lines = usage_lines })
  read_sensor board passes (some o) =
      let started = pigpio_line board.initialised in
      let ready = (do
        readings ← attempt_loop S o.device o.looping (pos 3) passes
        ok (record { exit_status = pos 0; lines = started ∷ readings })) in
      if is_failed board.initialised
      then refused (codes "PI_INIT_FAILED\n" ∷ [])
      else if is_zero (board.alert o.gpio)
      then ready
      else refused (started ∷ codes "PI_BAD_USER_GPIO\n" ∷ [])

  unfoldable pub sensor_main : List Bytes → Board → List Attempt → Outcome Printed
  unfolding parse read_sensor
  sensor_main args board passes = do
    o ← parse args default_options
    r ← read_sensor board passes o
    ok (record r { lines = version_line ∷ r.lines })
