-- ===== src/Daemon/Config/Valid.antt =====
-- The configuration of `main` in src/aprs_wx.cpp from a file whose values are all valid.
use aprs_wx.Daemon.Config.{
  Config, ConfigItem, configure, filter_of, initial_config, is_no_call, on_config_item, process,
  settings_of, start_up,
}
use aprs_wx.Daemon.Handling.{Settings}
use aprs_wx.Daemon.Safety.{IsConfigured}
use aprs_wx.Double.{Double}
use aprs_wx.Prelude.{
  Bool, Bytes, List, [], false, has_value, has_value-some, ok, refl, some, true, ℕ, ℤ, ◌&&◌, ◌∷◌,
  ◌≡◌,
}
use aprs_wx.Socket.Opening.{Login}
use aprs_wx.Utilities.{ConfigFile, opened}

both_true : (a b : Bool) → (a && b) ≡ true → b ≡ true
both_true true b h = h
both_true false b h = cc

module _ {F : Type 0} where
  -- The variables with a default value have a value.
  abbrev pub HasDefaults : Config F → Type 0
  HasDefaults g =
      (has_value g.influx_tls ≡ true)
      × (has_value g.influx_repeats ≡ true)
      × (has_value g.server_cycle_rate ≡ true)

module _ {F : Type 0} (lib : ConfigFile F) where
  on_config_item-HasDefaults :
      (g : Config F) (key : ConfigItem) (data_ : Bytes)
      → HasDefaults g
      → (on_config_item lib g key data_).1 ≡ true
      → HasDefaults (on_config_item lib g key data_).0
  unfolding on_config_item
  on_config_item-HasDefaults g ConfigItem.influx_tls s (a, b, c) v = (v, b, c)
  on_config_item-HasDefaults g ConfigItem.influx_repeats s (a, b, c) v = (a, v, c)
  on_config_item-HasDefaults g ConfigItem.server_cycle_rate s (a, b, c) v = (a, b, v)
  on_config_item-HasDefaults g ConfigItem.callsign s h v = h
  on_config_item-HasDefaults g ConfigItem.passcode s h v = h
  on_config_item-HasDefaults g ConfigItem.latitude s h v = h
  on_config_item-HasDefaults g ConfigItem.longitude s h v = h
  on_config_item-HasDefaults g ConfigItem.radius s h v = h
  on_config_item-HasDefaults g ConfigItem.influx_host s h v = h
  on_config_item-HasDefaults g ConfigItem.influx_port s h v = h
  on_config_item-HasDefaults g ConfigItem.influx_db s h v = h

  -- A value that was not valid stays so.
  process_invalid :
      (items : List (ConfigItem × Bytes)) (g : Config F) → (process lib items g false).1 ≡ false
  unfolding process
  process_invalid [] g = refl
  process_invalid ((key, s) ∷ items) g = process_invalid items (on_config_item lib g key s).0

  process_valid :
      (items : List (ConfigItem × Bytes)) (g : Config F) (valid : Bool)
      → (process lib items g valid).1 ≡ true
      → valid ≡ true
  process_valid items g true h = refl
  process_valid items g false h = cc (process_invalid items g)

  process-HasDefaults :
      (items : List (ConfigItem × Bytes)) (g : Config F) (valid : Bool)
      → HasDefaults g
      → (process lib items g valid).1 ≡ true
      → HasDefaults (process lib items g valid).0
  unfolding process
  process-HasDefaults [] g valid h v = h
  process-HasDefaults ((key, s) ∷ items) g valid h v =
      let g' = (on_config_item lib g key s).0 in
      let fine = (on_config_item lib g key s).1 in
      let both = process_valid items g' (valid && fine) v in
      process-HasDefaults items g' (valid && fine)
        (on_config_item-HasDefaults g key s h (both_true valid fine both)) v

module _ {F : Type 0} ⦃d : Double F⦄ where
  -- The five variables without a default value have a value, and the call sign is configured.
  abbrev pub IsComplete : Config F → Type 0
  IsComplete g =
      (has_value g.qth_latitude ≡ true)
      × (has_value g.qth_longitude ≡ true)
      × (has_value g.filter_radius ≡ true)
      × (has_value g.callsign ≡ true)
      × (has_value g.pass_code ≡ true)
      × (is_no_call g.callsign ≡ false)

  configure_complete :
      (print : ℤ → Bytes) (g : Config F) (lat lon : F) (limit : ℤ) (sign pass : Bytes)
      → g.qth_latitude ≡ some lat
      → g.qth_longitude ≡ some lon
      → g.filter_radius ≡ some limit
      → g.callsign ≡ some sign
      → g.pass_code ≡ some pass
      → is_no_call g.callsign ≡ false
      → configure print g
        ≡ ok (
          record { call_sign = sign; pass_code = pass; filter = filter_of print lat lon limit },
          settings_of g lat lon limit,
        )
  unfolding configure
  configure_complete print g lat lon limit sign pass a b c e f h = rw h (rw (a, b, c, e, f))

  -- If all values of an opened file are valid, it names the five items that have no default value, and
  -- the call sign is configured, then `main` goes on to its first connection, and the variables that
  -- its loop reads by `value()` have values.
  pub start_up-IsConfigured :
      (lib : ConfigFile F) (print : ℤ → Bytes) (items : List (ConfigItem × Bytes))
      → (process lib items initial_config true).1 ≡ true
      → IsComplete (process lib items initial_config true).0
      → (login : Login) × (s : Settings F) × (rate : ℕ) × (start_up lib print (opened items)
          ≡ ok (login, s))
        × IsConfigured s rate
  unfolding start_up
  start_up-IsConfigured lib print items valid (a, b, c, e, f, call_) =
      let (tls, repeats, limit) =
        process-HasDefaults lib items initial_config true (refl, refl, refl) valid in
      let g = (process lib items initial_config true).0 in
      let (rate, is_rate) = has_value-some g.server_cycle_rate limit in
      let (lat, is_lat) = has_value-some g.qth_latitude a in
      let (lon, is_lon) = has_value-some g.qth_longitude b in
      let (r, is_r) = has_value-some g.filter_radius c in
      let (sign, is_sign) = has_value-some g.callsign e in
      let (pass, is_pass) = has_value-some g.pass_code f in
      (
        _,
        settings_of g lat lon r,
        rate,
        configure_complete print g lat lon r sign pass is_lat is_lon is_r is_sign is_pass call_,
        (tls, repeats, is_rate),
      )
