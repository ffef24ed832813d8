-- ===== src/Monitor/Messages.antt =====
-- The table of the configuration of `main` in src/sys_monitor.cpp, and the messages on a file.
use aprs_wx.Monitor.Config.{
  MonitorConfig, MonitorItem, initial_monitor, on_monitor_item, process_monitor, database_tls,
  database_host, database_port, database_name, cpu_zone,
}
use aprs_wx.Prelude.{
  Bytes, List, Outcome, [], codes, get_elem?, has_value, map, not, ok, refl, some, true, ℕ, ℤ, ◌&&◌,
  ◌++◌, ◌>>=◌, ◌∷◌, ◌≡◌,
}
use aprs_wx.Utilities.{ConfigFile}
use aprs_wx.Utilities.Messages.{
  Spec, all_valid, all_valid-is_nil, complaint_on, complaints, complaints-invalid_keys,
  invalid_file, invalid_keys, is_nil, key_of, no_database, says_if,
}

-- `ConfigSpec`.
abbrev pub monitor_spec : List (Spec MonitorItem)
monitor_spec =
    (codes "influxTLS", database_tls)
    ∷ (codes "influxHost", database_host)
    ∷ (codes "influxPort", database_port)
    ∷ (codes "influxDb", database_name)
    ∷ (codes "cpuZone", cpu_zone)
    ∷ []

-- `static_cast<std::size_t>` of an item.
abbrev pub monitor_index : MonitorItem → ℕ
monitor_index database_tls = 0
monitor_index database_host = 1
monitor_index database_port = 2
monitor_index database_name = 3
monitor_index cpu_zone = 4

monitor_spec_row :
    (k : MonitorItem)
    → get_elem? monitor_spec (monitor_index k) ≡ some (key_of monitor_index monitor_spec k, k)
monitor_spec_row database_tls = refl
monitor_spec_row database_host = refl
monitor_spec_row database_port = refl
monitor_spec_row database_name = refl
monitor_spec_row cpu_zone = refl

module _ {F : Type 0} (lib : ConfigFile F) (print : ℤ → Bytes) where
  -- The messages on a file that is open.
  unfoldable pub monitor_messages : Bytes → List (MonitorItem × Bytes) → Outcome (List Bytes)
  unfolding complaints all_valid process_monitor
  monitor_messages path items = do
    invalid ←
        complaints monitor_spec monitor_index (on_monitor_item lib print) items initial_monitor
    let valid =
        all_valid monitor_spec monitor_index (on_monitor_item lib print) items initial_monitor true
    let g = process_monitor lib print items initial_monitor
    let complete = has_value g.host && has_value g.port && has_value g.database
    ok (
        invalid
        ++ (says_if (not valid) (invalid_file path) ++ says_if (not complete) (no_database path)))

  -- The keys in a file whose values are not valid.
  abbrev pub keys_refused : List (MonitorItem × Bytes) → MonitorConfig → List Bytes
  keys_refused = invalid_keys monitor_spec monitor_index (on_monitor_item lib print)

  -- As in the other program: a message for each value that is not valid, with the key of its item; one on
  -- the file exactly if there is such a value; one on the database exactly if a part of it has no value.
  pub monitor_messages-keys_refused :
      (path : Bytes) (items : List (MonitorItem × Bytes))
      → let refused = keys_refused items initial_monitor in
        let g = process_monitor lib print items initial_monitor in
        let complete = has_value g.host && has_value g.port && has_value g.database in
        monitor_messages path items
        ≡ ok (
            map complaint_on refused
            ++ (says_if (not (is_nil refused)) (invalid_file path)
                ++ says_if (not complete) (no_database path)))
  unfolding monitor_messages
  monitor_messages-keys_refused path items =
      rw
        (
          complaints-invalid_keys monitor_spec monitor_index (on_monitor_item lib print)
              monitor_spec_row items initial_monitor,
          ◌>>=◌,
        )
        (rw (
          all_valid-is_nil monitor_spec monitor_index (on_monitor_item lib print) items
            initial_monitor true))
