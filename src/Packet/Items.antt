-- ===== src/Packet/Items.antt =====
-- `WxSym`, `Units`, `WeatherItem` and `WeatherItemList` of src/APRS_Packet.h.
use aprs_wx.Prelude.{
  Bytes, List, Option, Outcome, [], codes, get_elem?, if◌then◌else◌, none, ok, some, undefined, ℕ,
  ◌==◌, ◌∷◌,
}

-- `enum class WxSym`.
pub data WxSym : Type 0 where
  wind_direction : WxSym
  wind_speed : WxSym
  wind_gust : WxSym
  temperature : WxSym
  humidity : WxSym
  rain_hour : WxSym
  rain_day : WxSym
  rain_midnight : WxSym
  pressure : WxSym
  luminosity : WxSym
  dew_point : WxSym
  humidex : WxSym

-- `enum class Units`.
pub data Units : Type 0 where
  degrees : Units
  mph : Units
  kph : Units
  m_ps : Units
  fahrenheit : Units
  celsius : Units
  inch_100 : Units
  mm : Units
  percent : Units
  h_pa : Units
  w_psqm : Units

-- `struct WeatherItem`. The factors are integral doubles, and are kept as the integers.
pub record WeatherItem : Type 0 where
  pub wx_sym : WxSym
  pub wx_flag : ℕ
  pub digits : ℕ
  pub db_name : Bytes
  pub prefix : Bytes
  pub suffix : Bytes
  pub units : Units
  pub factor : ℕ
  pub precision : ℕ

abbrev item : WxSym → ℕ → ℕ → Bytes → Bytes → Bytes → Units → ℕ → ℕ → WeatherItem
item s flag n db pre suf u f p = record {
  wx_sym = s;
  wx_flag = flag;
  digits = n;
  db_name = db;
  prefix = pre;
  suffix = suf;
  units = u;
  factor = f;
  precision = p;
}

-- `WeatherItemList`.
abbrev pub weather_item_list : List WeatherItem
weather_item_list =
    item wind_direction b'c' 3 (codes "WDir") (codes "Dir") [] degrees 1 0
    ∷ item wind_speed b's' 3 (codes "WSpeed") (codes "Wind") [] mph 1 0
    ∷ item wind_gust b'g' 3 (codes "WGust") (codes "Gust") [] mph 1 0
    ∷ item temperature b't' 3 (codes "Temp") (codes "Temp") [] fahrenheit 1 0
    ∷ item humidity b'h' 2 (codes "RelHum") (codes "Humid") [] percent 1 0
    ∷ item rain_hour b'r' 3 (codes "RHour") (codes "Rain") (codes "/hour") inch_100 100 2
    ∷ item rain_day b'p' 3 (codes "RDay") (codes "Rain") (codes "/day") inch_100 100 2
    ∷ item rain_midnight b'P' 3 (codes "RainMid") (codes "Rain") (codes "since midniht") inch_100
        100 2
    ∷ item pressure b'b' 5 (codes "BarroP") (codes "BP") [] h_pa 10 1
    ∷ item luminosity b'L' 3 (codes "Lumin") (codes "Lumin") [] w_psqm 1 0
    ∷ item dew_point b'\n' 0 (codes "DewPt") (codes "Dew Point") [] celsius 1 0
    ∷ item humidex b'\n' 0 (codes "Humidex") (codes "Humidex") [] celsius 1 0
    ∷ item luminosity b'l' 3 (codes "Lumin") (codes "Lumin") [] w_psqm 1 0
    ∷ []

-- `WeatherItemCount`.
abbrev pub weather_item_count : ℕ
weather_item_count = 13

-- `static_cast<std::size_t>(wxSym)`.
abbrev pub sym_index : WxSym → ℕ
sym_index wind_direction = 0
sym_index wind_speed = 1
sym_index wind_gust = 2
sym_index temperature = 3
sym_index humidity = 4
sym_index rain_hour = 5
sym_index rain_day = 6
sym_index rain_midnight = 7
sym_index pressure = 8
sym_index luminosity = 9
sym_index dew_point = 10
sym_index humidex = 11

-- `WeatherItemList[idx]`, undefined behind the array.
unfoldable pub item_at : ℕ → Outcome WeatherItem
item_at i = elim (get_elem? weather_item_list i) [ some x ↦ ok x | none ↦ undefined ]

-- `std::find_if` by the flag, over the items from some place on.
unfoldable pub find_flag : List WeatherItem → ℕ → Option WeatherItem
find_flag [] flag = none
find_flag (x ∷ xs) flag = if x.wx_flag == flag then some x else find_flag xs flag
