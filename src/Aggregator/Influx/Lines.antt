-- ===== src/Aggregator/Influx/Lines.antt =====
-- The text of `printInfluxFormat` of src/WeatherAggregator.cpp, against a list of its lines.
use aprs_wx.Aggregator.Influx.{
  Gathered, chill_line, comfort_lines, convert, gather, measurement, print_influx_format,
  print_item, print_items,
}
use aprs_wx.Aggregator.Sums.{WeatherAggregator}
use aprs_wx.Aggregator.Sums.Exact.{IsPaired}
use aprs_wx.AprsIs.Decode.{weight}
use aprs_wx.Double.{Double, ◌⊘◌}
use aprs_wx.Packet.Items.{
  Units, WeatherItem, WxSym, celsius, degrees, dew_point, fahrenheit, h_pa, humidex, humidity,
  inch_100, luminosity, mph, percent, pressure, rain_day, rain_hour, rain_midnight, sym_index,
  temperature, w_psqm, weather_item_list, wind_direction, wind_gust, wind_speed,
}
use aprs_wx.Prelude.{
  Bool, Bool-cases, Bytes, List, Option, [], ap, codes, false, has_value, if◌then◌else◌, inl, inr,
  none, ok, refl, some, true, ◌++◌, ◌==◌, ◌∷◌, ◌≡◌,
}
use mathlib.Core.List.{append-nil, append_assoc}

-- The symbols in the order of the lines, and the name and the units of each in the database.
abbrev pub symbols : List WxSym
symbols =
    wind_direction ∷ wind_speed ∷ wind_gust ∷ temperature ∷ humidity ∷ rain_hour ∷ rain_day
    ∷ rain_midnight ∷ pressure ∷ luminosity ∷ dew_point ∷ humidex ∷ []

abbrev pub name_of : WxSym → Bytes
name_of wind_direction = codes "WDir"
name_of wind_speed = codes "WSpeed"
name_of wind_gust = codes "WGust"
name_of temperature = codes "Temp"
name_of humidity = codes "RelHum"
name_of rain_hour = codes "RHour"
name_of rain_day = codes "RDay"
name_of rain_midnight = codes "RainMid"
name_of pressure = codes "BarroP"
name_of luminosity = codes "Lumin"
name_of dew_point = codes "DewPt"
name_of humidex = codes "Humidex"

abbrev pub units_of : WxSym → Units
units_of wind_direction = degrees
units_of wind_speed = mph
units_of wind_gust = mph
units_of temperature = fahrenheit
units_of humidity = percent
units_of rain_hour = inch_100
units_of rain_day = inch_100
units_of rain_midnight = inch_100
units_of pressure = h_pa
units_of luminosity = w_psqm
units_of dew_point = celsius
units_of humidex = celsius

-- The symbols whose values are needed again.
abbrev is_temperature : WxSym → Bool
is_temperature temperature = true
is_temperature _ = false

abbrev is_humidity : WxSym → Bool
is_humidity humidity = true
is_humidity _ = false

abbrev is_gust : WxSym → Bool
is_gust wind_gust = true
is_gust _ = false

module _ {F : Type 0} ⦃d : Double F⦄ where
  -- The mean of a sum by its weights, in the units of the database.
  abbrev pub converted_mean : Units → Option F → Option F → Option F
  converted_mean u (some sum) (some weight) = some (convert u (sum ⊘ weight))
  converted_mean u none weight = none
  converted_mean u (some sum) none = none

  abbrev pub line_of : Bytes → Bytes → Option F → Bytes
  line_of pre name none = []
  line_of pre name (some v) = measurement pre name v

  -- One line for each symbol that has a mean, and the lines that are computed from the means.
  abbrev pub mean_lines : Bytes → List WxSym → (WxSym → Option F) → Bytes
  mean_lines pre [] mean = []
  mean_lines pre (s ∷ rest) mean = line_of pre (name_of s) (mean s) ++ mean_lines pre rest mean

  abbrev pub influx_text : Bytes → (WxSym → Option F) → Bytes
  influx_text pre mean =
      mean_lines pre symbols mean
      ++ (comfort_lines pre (mean temperature) (mean humidity)
          ++ chill_line pre (mean temperature) (mean wind_gust))

  -- The means of an aggregator.
  abbrev pub mean_of : WeatherAggregator F → WxSym → Option F
  mean_of a s =
      converted_mean (units_of s) (a.value_aggregate (sym_index s)) (a.hann_aggregate (sym_index s))

  abbrev item_mean : WeatherAggregator F → WeatherItem → Option F
  item_mean a it =
      let i = sym_index it.wx_sym in
      converted_mean it.units (a.value_aggregate i) (a.hann_aggregate i)

  abbrev newer : Bool → Option F → Option F → Option F
  newer true (some v) old = some v
  newer true none old = old
  newer false v old = old

  -- The state behind an item, and behind a list of items.
  abbrev behind : Bytes → WeatherItem → Option F → Gathered F → Gathered F
  behind pre it mean g = record {
    out = g.out ++ line_of pre it.db_name mean;
    temperature = newer (is_temperature it.wx_sym) mean g.temperature;
    rel_humidity = newer (is_humidity it.wx_sym) mean g.rel_humidity;
    wind_gust = newer (is_gust it.wx_sym) mean g.wind_gust;
  }

  abbrev behind_all : Bytes → List WeatherItem → WeatherAggregator F → Gathered F → Gathered F
  behind_all pre [] a g = g
  behind_all pre (it ∷ items) a g =
      if it.wx_flag == b'l'
      then behind_all pre items a g
      else behind_all pre items a (behind pre it (item_mean a it) g)

  gather-behind :
      (s : WxSym) (v : F) (g : Gathered F) (out : Bytes)
      → (record (gather s v g) { out = out }) ≡ (record {
        out = out;
        temperature = newer (is_temperature s) (some v) g.temperature;
        rel_humidity = newer (is_humidity s) (some v) g.rel_humidity;
        wind_gust = newer (is_gust s) (some v) g.wind_gust;
      })
  unfolding gather
  gather-behind temperature v g out = refl
  gather-behind humidity v g out = refl
  gather-behind wind_gust v g out = refl
  gather-behind _ v g out = refl

  gather-out : (s : WxSym) (v : F) (g : Gathered F) → (gather s v g).out ≡ g.out
  unfolding gather
  gather-out temperature v g = refl
  gather-out humidity v g = refl
  gather-out wind_gust v g = refl
  gather-out _ v g = refl

  newer-none : (b : Bool) (old : Option F) → newer b none old ≡ old
  newer-none true old = refl
  newer-none false old = refl

  newer_first : (v : Option F) → newer true v none ≡ v
  newer_first none = refl
  newer_first (some v) = refl

  print_item-behind :
      (pre : Bytes) (it : WeatherItem) (sum weight : Option F) (g : Gathered F)
      → has_value sum ≡ has_value weight
      → print_item pre it sum weight g ≡ ok (behind pre it (converted_mean it.units sum weight) g)
  unfolding print_item
  print_item-behind pre it none weight g h =
      rw (newer-none (is_temperature it.wx_sym) g.temperature) (
        rw (newer-none (is_humidity it.wx_sym) g.rel_humidity)
          (rw (newer-none (is_gust it.wx_sym) g.wind_gust) (rw (append-nil g.out))))
  print_item-behind pre it (some s) none g h = cc
  print_item-behind pre it (some s) (some w) g h =
      let v = convert it.units (s ⊘ w) in
      ap ok (
        rw (gather-out it.wx_sym v g)
          (gather-behind it.wx_sym v g (g.out ++ measurement pre it.db_name v)))

  print_items-behind_all :
      (pre : Bytes) (items : List WeatherItem) (a : WeatherAggregator F) (g : Gathered F)
      → IsPaired a
      → print_items pre items a g ≡ ok (behind_all pre items a g)
  unfolding print_items
  print_items-behind_all pre [] a g p = refl
  print_items-behind_all pre (it ∷ items) a g p =
      let i = sym_index it.wx_sym in
      elim (Bool-cases (it.wx_flag == b'l')) [
        | inl high ↦ rw high (print_items-behind_all pre items a g p)
        | inr low ↦ rw low (
            rw (print_item-behind pre it (a.value_aggregate i) (a.hann_aggregate i) g (p i))
              (print_items-behind_all pre items a (behind pre it (item_mean a it) g) p))
      ]

  -- `printInfluxFormat`, with the sums and the weights in pairs, returns one line for each symbol that
  -- has a sum, in the order of the symbols and with its converted mean, and behind them the lines of
  -- the dew point, the humidex and the wind chill where the means that they need are there.
  pub print_influx_format-influx_text :
      (pre : Bytes) (a : WeatherAggregator F)
      → IsPaired a
      → print_influx_format pre a ≡ ok (influx_text pre (mean_of a))
  unfolding print_influx_format
  print_influx_format-influx_text pre a p =
      rw
        (print_items-behind_all pre weather_item_list a
          (record { out = []; temperature = none; rel_humidity = none; wind_gust = none }) p)
        (rw
          (
            newer_first (mean_of a temperature),
            newer_first (mean_of a humidity),
            newer_first (mean_of a wind_gust),
          )
          (simp append_assoc))
