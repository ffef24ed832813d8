-- ===== src/Daemon/Config/Messages.antt =====
-- The table of the configuration of `main` in src/aprs_wx.cpp, and the messages on a file.
use aprs_wx.Daemon.Config.{Config, ConfigItem, initial_config, on_config_item, process}
use aprs_wx.Prelude.{
  Bool, Bytes, List, Outcome, [], codes, false, get_elem?, has_value, map, not, ok, refl, some,
  true, ℕ, ◌&&◌, ◌++◌, ◌>>=◌, ◌∙◌, ◌∷◌, ◌≡◌,
}
use aprs_wx.Utilities.{ConfigFile}
use aprs_wx.Utilities.Messages.{
  Spec, invalid_file, is_nil, is_nil_if, no_database, says_if, complaint_on, complaints,
  complaints-invalid_keys, invalid_keys, key_of,
}

-- `ConfigSpec`.
abbrev pub config_spec : List (Spec ConfigItem)
config_spec =
    (codes "callsign", ConfigItem.callsign)
    ∷ (codes "passcode", ConfigItem.passcode)
    ∷ (codes "latitude", ConfigItem.latitude)
    ∷ (codes "longitude", ConfigItem.longitude)
    ∷ (codes "radius", ConfigItem.radius)
    ∷ (codes "influxTLS", ConfigItem.influx_tls)
    ∷ (codes "influxHost", ConfigItem.influx_host)
    ∷ (codes "influxPort", ConfigItem.influx_port)
    ∷ (codes "influxDb", ConfigItem.influx_db)
    ∷ (codes "influxRepeats", ConfigItem.influx_repeats)
    ∷ (codes "cycleRate", ConfigItem.server_cycle_rate)
    ∷ []

-- `static_cast<std::size_t>` of an item.
abbrev pub index_of : ConfigItem → ℕ
index_of ConfigItem.callsign = 0
index_of ConfigItem.passcode = 1
index_of ConfigItem.latitude = 2
index_of ConfigItem.longitude = 3
index_of ConfigItem.radius = 4
index_of ConfigItem.influx_tls = 5
index_of ConfigItem.influx_host = 6
index_of ConfigItem.influx_port = 7
index_of ConfigItem.influx_db = 8
index_of ConfigItem.influx_repeats = 9
index_of ConfigItem.server_cycle_rate = 10

module _ {F : Type 0} (lib : ConfigFile F) where
  -- The messages on a file that is open.
  unfoldable pub config_messages : Bytes → List (ConfigItem × Bytes) → Outcome (List Bytes)
  unfolding process complaints
  config_messages path items = do
    invalid ← complaints config_spec index_of (on_config_item lib) items initial_config
    let (g, valid) = process lib items initial_config true
    let complete = has_value g.influx_host && has_value g.influx_port && has_value g.influx_db
    ok (
        invalid
        ++ (says_if (not valid) (invalid_file path) ++ says_if (not complete) (no_database path)))

config_spec_row :
    (k : ConfigItem) → get_elem? config_spec (index_of k) ≡ some (key_of index_of config_spec k, k)
config_spec_row ConfigItem.callsign = refl
config_spec_row ConfigItem.passcode = refl
config_spec_row ConfigItem.latitude = refl
config_spec_row ConfigItem.longitude = refl
config_spec_row ConfigItem.radius = refl
config_spec_row ConfigItem.influx_tls = refl
config_spec_row ConfigItem.influx_host = refl
config_spec_row ConfigItem.influx_port = refl
config_spec_row ConfigItem.influx_db = refl
config_spec_row ConfigItem.influx_repeats = refl
config_spec_row ConfigItem.server_cycle_rate = refl

module _ {F : Type 0} (lib : ConfigFile F) where
  -- The keys in a file whose values are not valid.
  abbrev pub keys_refused : List (ConfigItem × Bytes) → Config F → List Bytes
  keys_refused = invalid_keys config_spec index_of (on_config_item lib)

  process-is_nil :
      (items : List (ConfigItem × Bytes)) (g : Config F) (valid : Bool)
      → (process lib items g valid).1 ≡ (valid && is_nil (keys_refused items g))
  unfolding process
  process-is_nil [] g true = refl
  process-is_nil [] g false = refl
  process-is_nil ((k, s) ∷ items) g false = process-is_nil items (on_config_item lib g k s).0 false
  process-is_nil ((k, s) ∷ items) g true =
      let (g', fine) = on_config_item lib g k s in
      process-is_nil items g' fine
      ∙ is_nil_if fine (key_of index_of config_spec k) (keys_refused items g')

  -- For every file that is open, `main` prints a message for each value that is not valid, in the order of
  -- the file and with the key of its item; one on the file behind them exactly if there is such a value;
  -- and one on the database exactly if one of its three parts has no value at the end.
  pub config_messages-keys_refused :
      (path : Bytes) (items : List (ConfigItem × Bytes))
      → let refused = keys_refused items initial_config in
        let g = (process lib items initial_config true).0 in
        let complete =
          has_value g.influx_host && has_value g.influx_port && has_value g.influx_db in
        config_messages lib path items
        ≡ ok (
            map complaint_on refused
            ++ (says_if (not (is_nil refused)) (invalid_file path)
                ++ says_if (not complete) (no_database path)))
  unfolding config_messages
  config_messages-keys_refused path items =
      rw
        (
          complaints-invalid_keys config_spec index_of (on_config_item lib) config_spec_row items
              initial_config,
          ◌>>=◌,
        )
        (rw (process-is_nil items initial_config true))
