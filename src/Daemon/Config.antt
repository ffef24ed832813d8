-- ===== src/Daemon/Config.antt =====
-- The start of `main` in src/aprs_wx.cpp: the configuration file, and what the loops get from it.
pub mod Console
pub mod Messages
pub mod Valid
use aprs_wx.Aggregator.Influx.{Database}
use aprs_wx.Daemon.Handling.{Settings}
use aprs_wx.Double.{Double}
use aprs_wx.Prelude.{
  Bool, Bytes, List, Option, Outcome, [], codes, exits, false, has_value, if◌then◌else◌, ltb,
  negsuc, none, not, ok, pos, some, true, value, ℕ, ℤ, ◌%◌, ◌&&◌, ◌++◌, ◌+◌, ◌-◌, ◌==◌, ◌>>=◌, ◌^◌,
  ◌||◌, ◌∷◌,
}
use aprs_wx.Socket.Opening.{Login}
use aprs_wx.Std.Text.{starts_with}
use aprs_wx.Utilities.{ConfigFile, ConfigStatus, no_file, open_fail, opened}
use mathlib.Core.List.{filter}

-- `enum class ConfigItem`.
pub data ConfigItem : Type 0 where
  callsign : ConfigItem
  passcode : ConfigItem
  latitude : ConfigItem
  longitude : ConfigItem
  radius : ConfigItem
  influx_tls : ConfigItem
  influx_host : ConfigItem
  influx_port : ConfigItem
  influx_db : ConfigItem
  influx_repeats : ConfigItem
  server_cycle_rate : ConfigItem

-- The local variables of `main` that the items set.
pub record Config (F : Type 0) : Type 0 where
  pub callsign : Option Bytes
  pub pass_code : Option Bytes
  pub qth_latitude : Option F
  pub qth_longitude : Option F
  pub filter_radius : Option ℤ
  pub influx_tls : Option Bool
  pub influx_repeats : Option Bool
  pub server_cycle_rate : Option ℕ
  pub influx_host : Option Bytes
  pub influx_port : Option ℕ
  pub influx_db : Option Bytes

abbrev pub initial_config : {F : Type 0} → Config F
initial_config = record {
  callsign = none;
  pass_code = none;
  qth_latitude = none;
  qth_longitude = none;
  filter_radius = none;
  influx_tls = some false;
  influx_repeats = some false;
  server_cycle_rate = some 100;
  influx_host = none;
  influx_port = none;
  influx_db = none;
}

-- What an `optional<unsigned>` gets from an `optional<long>`.
abbrev pub as_unsigned : Option ℤ → Option ℕ
as_unsigned none = none
as_unsigned (some (pos n)) = some (n % 2 ^ 32)
as_unsigned (some (negsuc n)) = some ((2 ^ 32 - (n + 1) % 2 ^ 32) % 2 ^ 32)

-- `influxPort.has_value() && influxPort.value() > 0`.
abbrev pub is_port : Option ℕ → Bool
is_port none = false
is_port (some p) = ltb 0 p

module _ {F : Type 0} (lib : ConfigFile F) where
  -- The `switch` on the item: the variables, and `validValue`.
  unfoldable pub on_config_item : Config F → ConfigItem → Bytes → Config F × Bool
  on_config_item g ConfigItem.callsign s =
      let v = lib.parse_text_by s (λ c. lib.is_alnum c || c == b'-') lib.to_upper in
      (record g { callsign = v }, has_value v)
  on_config_item g ConfigItem.passcode s =
      let v = lib.parse_text s lib.is_digit in (record g { pass_code = v }, has_value v)
  on_config_item g ConfigItem.latitude s =
      let v = lib.convert_double s in (record g { qth_latitude = v }, has_value v)
  on_config_item g ConfigItem.longitude s =
      let v = lib.convert_double s in (record g { qth_longitude = v }, has_value v)
  on_config_item g ConfigItem.radius s =
      let v = lib.convert_long s in (record g { filter_radius = v }, has_value v)
  on_config_item g ConfigItem.influx_tls s =
      let v = lib.parse_boolean s in (record g { influx_tls = v }, has_value v)
  on_config_item g ConfigItem.influx_host s =
      let v = lib.parse_text s (λ c. lib.is_alnum c || c == b'.') in
      (record g { influx_host = v }, has_value v)
  on_config_item g ConfigItem.influx_port s =
      let v = as_unsigned (lib.convert_long s) in (record g { influx_port = v }, is_port v)
  on_config_item g ConfigItem.influx_db s =
      let v = lib.parse_text s (λ c. lib.is_alnum c || c == b'_') in
      (record g { influx_db = v }, has_value v)
  on_config_item g ConfigItem.influx_repeats s =
      let v = lib.parse_boolean s in (record g { influx_repeats = v }, has_value v)
  on_config_item g ConfigItem.server_cycle_rate s =
      let v = lib.convert_unsigned_long s in (record g { server_cycle_rate = v }, has_value v)

  -- The calls that `process` makes, with `validFile`.
  unfoldable pub process : List (ConfigItem × Bytes) → Config F → Bool → Config F × Bool
  process [] g valid = (g, valid)
  process ((key, data_) ∷ items) g valid =
      let (g', fine) = on_config_item g key data_ in process items g' (valid && fine)

-- `p` stands somewhere in the text.
abbrev pub occurs : Bytes → Bytes → Bool
occurs p [] = starts_with p []
occurs p (c ∷ s) = starts_with p (c ∷ s) || occurs p s

-- `s.rfind(p) == 0`: the last place of `p` is the first of the text.
abbrev pub stands_first : Bytes → Bytes → Bool
stands_first p [] = starts_with p []
stands_first p (c ∷ s) = starts_with p (c ∷ s) && not (occurs p s)

-- `callsign.has_value() && callsign.value().rfind("N0CALL") == 0`.
abbrev pub is_no_call : Option Bytes → Bool
is_no_call none = false
is_no_call (some s) = stands_first (codes "N0CALL") s

-- The database, if its three parts have values.
abbrev pub database_of : Option Bytes → Option ℕ → Option Bytes → Option Database
database_of (some host) (some port) (some name) =
    some (record { host = host; port = port; database = name })
database_of (some host) (some port) none = none
database_of (some host) none name = none
database_of none port name = none

module _ {F : Type 0} ⦃d : Double F⦄ where
  -- `"r/" << latitude << '/' << longitude << '/' << radius`; `print` is the output of a `long`.
  abbrev pub filter_of : (ℤ → Bytes) → F → F → ℤ → Bytes
  filter_of print lat lon r =
      codes "r/" ++ (d.show lat ++ (b'/' ∷ (d.show lon ++ (b'/' ∷ print r))))

  -- The variables that the loops read.
  abbrev pub settings_of : Config F → F → F → ℤ → Settings F
  settings_of g lat lon limit = record {
    qth_latitude = lat;
    qth_longitude = lon;
    filter_radius = d.of_long limit;
    database = database_of g.influx_host g.influx_port g.influx_db;
    influx_tls = g.influx_tls;
    influx_repeats = g.influx_repeats;
    server_cycle_rate = g.server_cycle_rate;
  }

  -- From the check of the call sign to the first connection.
  unfoldable pub configure : (ℤ → Bytes) → Config F → Outcome (Login × Settings F)
  configure print g =
      let ready = (do
        lat ← value g.qth_latitude
        lon ← value g.qth_longitude
        limit ← value g.filter_radius
        sign ← value g.callsign
        pass ← value g.pass_code
        ok (
          record { call_sign = sign; pass_code = pass; filter = filter_of print lat lon limit },
          settings_of g lat lon limit,
        )) in
      if is_no_call g.callsign then exits else ready

  -- An invalid value has a message, and no other effect.
  unfoldable pub start_up :
      ConfigFile F → (ℤ → Bytes) → ConfigStatus ConfigItem → Outcome (Login × Settings F)
  unfolding configure process
  start_up lib print (opened items) = configure print (process lib items initial_config true).0
  start_up lib print no_file = exits
  start_up lib print open_fail = exits
