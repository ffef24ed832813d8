-- ===== src/Monitor/Config.antt =====
-- The configuration of `main` in src/sys_monitor.cpp.
use aprs_wx.Prelude.{
  Bool, Bytes, List, Option, Outcome, [], codes, false, has_value, if◌then◌else◌, is_zero, ltb,
  none, not, ok, pos, some, value, ℤ, ◌++◌, ◌==◌, ◌>>=◌, ◌||◌, ◌∷◌,
}
use aprs_wx.Utilities.{ConfigFile}

-- `enum class ConfigItem`.
pub data MonitorItem : Type 0 where
  database_tls : MonitorItem
  database_host : MonitorItem
  database_port : MonitorItem
  database_name : MonitorItem
  cpu_zone : MonitorItem

-- The variables that the items set; the path of the zone is empty if there is none.
pub record MonitorConfig : Type 0 where
  pub use_tls : Bool
  pub host : Option Bytes
  pub port : Option ℤ
  pub database : Option Bytes
  pub zone : Bytes

abbrev pub initial_monitor : MonitorConfig
initial_monitor = record { use_tls = false; host = none; port = none; database = none; zone = [] }

-- `influxPort.value() > 0`.
abbrev pub is_positive : Option ℤ → Bool
is_positive (some (pos n)) = ltb 0 n
is_positive _ = false

-- The path of a zone; `print` is the output of a `long`.
abbrev pub zone_path : (ℤ → Bytes) → ℤ → Bytes
zone_path print z = codes "/sys/class/thermal/thermal_zone" ++ (print z ++ codes "/temp")

abbrev pub set_tls : Option ℤ → MonitorConfig → MonitorConfig
set_tls none g = g
set_tls (some z) g = record g { use_tls = not (is_zero z) }

abbrev pub set_zone : (ℤ → Bytes) → Option ℤ → MonitorConfig → MonitorConfig
set_zone print none g = g
set_zone print (some z) g = record g { zone = zone_path print z }

module _ {F : Type 0} (lib : ConfigFile F) (print : ℤ → Bytes) where
  -- The `switch` on the item: the variables, and `validValue`.
  unfoldable pub on_monitor_item : MonitorConfig → MonitorItem → Bytes → MonitorConfig × Bool
  on_monitor_item g database_tls s = let v = lib.convert_long s in (set_tls v g, has_value v)
  on_monitor_item g database_host s =
      let v = lib.parse_text s (λ c. lib.is_alnum c || c == b'.') in
      (record g { host = v }, has_value v)
  on_monitor_item g database_port s =
      let v = lib.convert_long s in (record g { port = v }, is_positive v)
  on_monitor_item g database_name s =
      let v = lib.parse_text s (λ c. lib.is_alnum c || c == b'_') in
      (record g { database = v }, has_value v)
  on_monitor_item g cpu_zone s = let v = lib.convert_long s in (set_zone print v g, has_value v)

  -- The calls that `process` makes; an invalid value has a message, and no other effect.
  unfoldable pub process_monitor : List (MonitorItem × Bytes) → MonitorConfig → MonitorConfig
  unfolding on_monitor_item
  process_monitor [] g = g
  process_monitor ((key, s) ∷ items) g = process_monitor items (on_monitor_item g key s).0

abbrev pub monitor_address : (ℤ → Bytes) → Bool → Bytes → ℤ → Bytes → Bytes
monitor_address print tls host port database =
    (if tls then codes "https" else codes "http")
    ++ (codes "://" ++ (host ++ (b':' ∷ (print port ++ (codes "/write?db=" ++ database)))))

-- The address of the database, with `value()` of its three parts.
unfoldable pub url_of : (ℤ → Bytes) → MonitorConfig → Outcome Bytes
url_of print g = do
  host ← value g.host
  port ← value g.port
  database ← value g.database
  ok (
      (if g.use_tls then codes "https" else codes "http")
      ++ (codes "://" ++ (host ++ (b':' ∷ (print port ++ (codes "/write?db=" ++ database))))))
