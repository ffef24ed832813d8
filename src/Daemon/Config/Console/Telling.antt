-- ===== src/Daemon/Config/Console/Telling.antt =====
-- What the messages at the start of `main` in src/aprs_wx.cpp tell.
use aprs_wx.Daemon.Config.{
  Config, ConfigItem, filter_of, initial_config, is_no_call, process, start_up,
}
use aprs_wx.Daemon.Config.Console.{Said, could_not_open, does_not_exist, hello, not_configured, who}
use aprs_wx.Daemon.Config.Messages.{keys_refused}
use aprs_wx.Daemon.Handling.{Settings}
use aprs_wx.Double.{Double}
use aprs_wx.Prelude.{
  Bytes, Exception, List, Outcome, [], exits, has_value, map, none, not, ok, some, throws, true, ℤ,
  ◌&&◌, ◌++◌, ◌∷◌, ◌≡◌,
}
use aprs_wx.Socket.Opening.{Login}
use aprs_wx.Utilities.{ConfigFile, ConfigStatus, no_file, open_fail, opened}
use aprs_wx.Utilities.Messages.{complaint_on, invalid_file, is_nil, no_database, says_if}

module _ {F : Type 0} ⦃d : Double F⦄ (lib : ConfigFile F) (print : ℤ → Bytes) where
  -- The messages on the values of a file, and on its database.
  abbrev pub remarks : Bytes → ConfigStatus ConfigItem → List Bytes
  remarks path (opened items) =
      let refused = keys_refused lib items initial_config in
      let g = (process lib items initial_config true).0 in
      let complete = has_value g.influx_host && has_value g.influx_port && has_value g.influx_db in
      map complaint_on refused
      ++ (says_if (not (is_nil refused)) (invalid_file path)
          ++ says_if (not complete) (no_database path))
  remarks path no_file = []
  remarks path open_fail = []

  -- The variables behind the file.
  abbrev pub final : ConfigStatus ConfigItem → Config F
  final (opened items) = (process lib items initial_config true).0
  final no_file = initial_config
  final open_fail = initial_config

  abbrev pub HasPlace : Config F → F → F → ℤ → Type 0
  HasPlace g lat lon limit =
      (g.qth_latitude ≡ some lat) × (g.qth_longitude ≡ some lon) × (g.filter_radius ≡ some limit)

  -- The messages that stand behind the remarks, for what the start comes to.
  pub data Told (path reason : Bytes) (g : Config F)
      : Outcome (Login × Settings F) → List Bytes → Type 0 where
    connects_next :
        (login : Login) (s : Settings F)
        → Told path reason g (ok (login, s)) (hello ∷ who login.call_sign login.filter ∷ [])
    no_latitude :
        g.qth_latitude ≡ none → Told path reason g (throws Exception.bad_optional_access) []
    no_longitude :
        g.qth_longitude ≡ none → Told path reason g (throws Exception.bad_optional_access) []
    no_radius :
        g.filter_radius ≡ none → Told path reason g (throws Exception.bad_optional_access) []
    no_sign :
        g.callsign ≡ none → Told path reason g (throws Exception.bad_optional_access) (hello ∷ [])
    no_pass :
        (sign : Bytes) (lat lon : F) (limit : ℤ)
        → HasPlace g lat lon limit
        → g.callsign ≡ some sign
        → g.pass_code ≡ none
        → Told path reason g
            (throws Exception.bad_optional_access)
            (hello ∷ who sign (filter_of print lat lon limit) ∷ [])
    unconfigured :
        is_no_call g.callsign ≡ true → Told path reason g exits (not_configured path ∷ [])
    missing : Told path reason g exits (does_not_exist path ∷ [])
    unreadable : Told path reason g exits (could_not_open path reason ∷ [])

  module _ (path reason : Bytes) where
    module _ (g : Config F) where
      -- A part with the result `outcome`, behind the messages `before`.
      abbrev Behind : List Bytes → Outcome (Login × Settings F) → Said (Login × Settings F) → Type 0
      Behind before outcome said =
          (said.result ≡ outcome) × Told path reason g outcome (before ++ said.messages)

    -- All that a start tells.
    abbrev pub Tells : ConfigStatus ConfigItem → Said (Login × Settings F) → Type 0
    Tells st said =
        (said.result ≡ start_up lib print st)
        × (last : List Bytes) × (said.messages ≡ remarks path st ++ last)
        × Told path reason (final st) (start_up lib print st) last
