-- ===== src/Aggregator/Influx.antt =====
-- `printInfluxFormat` of src/WeatherAggregator.cpp, and the text that `pushToInflux` posts.
pub mod Total
pub mod Lines
use aprs_wx.Aggregator.Sums.{WeatherAggregator}
use aprs_wx.AprsIs.Decode.{weight}
use aprs_wx.Double.{Double, whole, ◌⊕◌, ◌⊖◌, ◌⊗◌, ◌⊘◌}
use aprs_wx.Packet.Items.{
  Units, WeatherItem, WxSym, fahrenheit, inch_100, mph, sym_index, weather_item_list,
}
use aprs_wx.Prelude.{
  Bool, Bytes, List, Option, Outcome, [], codes, equal, if◌then◌else◌, none, not, ok, some, value,
  ℕ, ◌++◌, ◌==◌, ◌>>=◌, ◌∷◌,
}
use aprs_wx.Std.Number.{print_unsigned}
use aprs_wx.Utilities.{Post}

-- The stream, and the values that the dew point, the humidex and the wind chill need.
pub record Gathered (F : Type 0) : Type 0 where
  pub out : Bytes
  pub temperature : Option F
  pub rel_humidity : Option F
  pub wind_gust : Option F

-- The parts of the address of the database.
pub record Database : Type 0 where
  pub host : Bytes
  pub port : ℕ
  pub database : Bytes

-- `buildUrl`.
abbrev pub address_of : Database → Bool → Bytes
address_of db secure =
    (if secure then codes "https" else codes "http")
    ++ (codes "://"
        ++ (db.host ++ (b':' ∷ (print_unsigned db.port ++ (codes "/write?db=" ++ db.database)))))

module _ {F : Type 0} ⦃d : Double F⦄ where
  -- `strm << prefix << name << '=' << value << '\n'`.
  abbrev pub measurement : Bytes → Bytes → F → Bytes
  measurement pre name v = pre ++ (name ++ (b'=' ∷ (d.show v ++ (b'\n' ∷ []))))

  -- `FahrenheitToCelsius`.
  unfoldable pub fahrenheit_to_celsius : F → F
  fahrenheit_to_celsius t = (t ⊖ whole 32) ⊗ (whole 5 ⊘ whole 9)

  -- The conversion of a value to the units of the database.
  unfoldable pub convert : Units → F → F
  convert fahrenheit v = fahrenheit_to_celsius v
  convert inch_100 v = (if d.lt v (d.literal 1 2) then whole 0 else v) ⊗ d.literal 254 1
  convert mph v = v ⊗ d.literal 160934 5
  convert _ v = v

  -- Keeps the values that are needed again.
  unfoldable pub gather : WxSym → F → Gathered F → Gathered F
  gather WxSym.temperature v g = record g { temperature = some v }
  gather WxSym.humidity v g = record g { rel_humidity = some v }
  gather WxSym.wind_gust v g = record g { wind_gust = some v }
  gather _ v g = g

  -- One item whose slot has a sum; the weight is read by `value()`.
  unfoldable pub print_item :
      Bytes → WeatherItem → Option F → Option F → Gathered F → Outcome (Gathered F)
  unfolding convert gather
  print_item pre it none h g = ok g
  print_item pre it (some sum) h g = do
    weight ← value h
    let v = convert it.units (sum ⊘ weight)
    let kept = gather it.wx_sym v g
    ok (record kept { out = kept.out ++ measurement pre it.db_name v })

  -- The loop over the items, less the one for the high luminosity range.
  unfoldable pub print_items :
      Bytes → List WeatherItem → WeatherAggregator F → Gathered F → Outcome (Gathered F)
  unfolding print_item
  print_items pre [] a g = ok g
  print_items pre (it ∷ items) a g = do
    let i = sym_index it.wx_sym
    g' ←
        (if not (it.wx_flag == b'l')
          then print_item pre it (a.value_aggregate i) (a.hann_aggregate i) g
          else ok g)
    print_items pre items a g'

  unfoldable pub dew_point_of : F → F → F
  dew_point_of temp hum = temp ⊖ (whole 100 ⊖ hum) ⊘ whole 5

  unfoldable pub humidex_of : F → F → F
  humidex_of temp dew =
      let e =
        d.literal 611 2
        ⊗ d.exp (
            d.literal 54177530 4
            ⊗ (whole 1 ⊘ d.literal 27316 2 ⊖ whole 1 ⊘ (dew ⊕ d.literal 27315 2))) in
      let h = d.literal 5555 4 ⊗ (e ⊖ whole 10) in temp ⊕ h

  unfoldable pub wind_chill_of : F → F → F
  wind_chill_of temp velocity =
      d.literal 1312 2
      ⊕ d.literal 6215 4 ⊗ temp
      ⊖ d.literal 1137 2 ⊗ d.pow velocity (d.literal 16 2)
      ⊕ d.literal 3965 4 ⊗ temp ⊗ d.pow velocity (d.literal 16 2)

  -- The lines of the dew point and the humidex.
  unfoldable pub comfort_lines : Bytes → Option F → Option F → Bytes
  unfolding dew_point_of humidex_of
  comfort_lines pre (some temp) (some hum) =
      let dew = dew_point_of temp hum in
      measurement pre (codes "DewPt") dew ++ measurement pre (codes "Humidex") (humidex_of temp dew)
  comfort_lines pre none h = []
  comfort_lines pre (some temp) none = []

  -- The line of the wind chill.
  unfoldable pub chill_line : Bytes → Option F → Option F → Bytes
  unfolding wind_chill_of
  chill_line pre (some temp) (some velocity) =
      measurement pre (codes "WindChill") (wind_chill_of temp velocity)
  chill_line pre none v = []
  chill_line pre (some temp) none = []

  unfoldable pub print_influx_format : Bytes → WeatherAggregator F → Outcome Bytes
  unfolding print_items comfort_lines chill_line
  print_influx_format pre a = do
    g ←
        print_items pre weather_item_list a
          (record { out = []; temperature = none; rel_humidity = none; wind_gust = none })
    ok (
        g.out
        ++ (comfort_lines pre g.temperature g.rel_humidity
            ++ chill_line pre g.temperature g.wind_gust))

  -- `pushToInflux`: what it posts to the database, if the text is not empty. Its result, which tells
  -- whether the transfer has succeeded, is not read by `main`.
  unfoldable pub push_to_influx : Database → Bool → WeatherAggregator F → Outcome (List Post)
  push_to_influx db secure a = do
    word ← print_influx_format (codes "aggregate,call=VE3YSH ") a
    ok (if equal word [] then [] else record { url = address_of db secure; body = word } ∷ [])
