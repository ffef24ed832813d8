-- ===== src/Daemon/Handling.antt =====
-- The body of the inner loop of `main` in src/aprs_wx.cpp, behind `getPacket`.
use aprs_wx.Aggregator.Influx.{Database, push_to_influx}
use aprs_wx.Aggregator.Reports.{Reports, assign}
use aprs_wx.Aggregator.Sums.{WeatherAggregator, aggregate_data}
use aprs_wx.AprsIs.Cursor.{Cursor, char_at_index, prefix}
use aprs_wx.AprsIs.Decode.{Station, decode, station_at}
use aprs_wx.Double.{Double}
use aprs_wx.Packet.Report.{Packet, WxReport, plain, status, wx}
use aprs_wx.Packet.Status.{PacketStatus}
use aprs_wx.Prelude.{
  Bool, List, Option, Outcome, [], codes, equal, false, if◌then◌else◌, none, not, ok, some, true,
  undefined, value, ℕ, ◌&&◌, ◌+◌, ◌==◌, ◌>>=◌, ◌∷◌,
}
use aprs_wx.Utilities.{Post}

-- The variables that the loop reads; the first three have values, since `main` has read them.
-- `database` has a value if its host, its port and its name have.
pub record Settings (F : Type 0) : Type 0 where
  pub qth_latitude : F
  pub qth_longitude : F
  pub filter_radius : F
  pub database : Option Database
  pub influx_tls : Option Bool
  pub influx_repeats : Option Bool
  pub server_cycle_rate : Option ℕ

-- The state that the loop keeps: the count of packets and the aggregator.
pub record Daemon (F : Type 0) : Type 0 where
  pub packet_count : ℕ
  pub aggregator : WeatherAggregator F

-- How the body ends: the loop goes on, or `main` returns 1.
pub data Control : Type 0 where
  goes_on : Control
  returns_1 : Control

-- What the body leaves: how it ends, the state, and the transfers to the database.
pub record Handled (F : Type 0) : Type 0 where
  pub control : Control
  pub daemon : Daemon F
  pub posts : List Post

module _ {F : Type 0} where
  -- `dynamic_cast<APRS_WX_Report *>`, whose result is used without a test.
  unfoldable pub as_report : Packet F → Outcome (WxReport F)
  as_report (wx r) = ok r
  as_report (plain p) = undefined

  -- The members of the socket object that `main` sets.
  abbrev pub station_of : Settings F → Station F
  station_of s = station_at s.qth_latitude s.qth_longitude s.filter_radius

  abbrev pub with_report : WxReport F → WeatherAggregator F → WeatherAggregator F
  with_report r a = record a { reports = assign r.info.name r a.reports }

module _ {F : Type 0} ⦃d : Double F⦄ where
  -- `pushToInflux`, with the argument `influxTls.value()`, where a condition holds and the database has
  -- a value.
  abbrev pub push_if :
      Bool → Option Database → Option Bool → WeatherAggregator F → Outcome (List Post)
  push_if true (some db) tls a = do secure ← value tls; push_to_influx db secure a
  push_if true none tls a = ok []
  push_if false db tls a = ok []

  -- `case PacketStatus::WxPacket`, at time `later`.
  unfoldable pub on_report : Settings F → ℕ → Daemon F → Packet F → Outcome (Handled F)
  unfolding as_report
  on_report s later m p = do
    r ← as_report p
    a ← aggregate_data later (with_report r m.aggregator)
    posts ← push_if true s.database s.influx_tls a
    ok (record { control = goes_on; daemon = record m { aggregator = a }; posts = posts })

  -- The `switch` on the status of the decoded packet.
  unfoldable pub on_status :
      Settings F → ℕ → Daemon F → Packet F → PacketStatus → Outcome (Handled F)
  on_status s later m p PacketStatus.wx_packet = on_report s later m p
  on_status s later m p PacketStatus.decoding_error =
      ok (record { control = returns_1; daemon = m; posts = [] })
  on_status s later m p _ = ok (record { control = goes_on; daemon = m; posts = [] })

  -- The packet of a station, decoded at time `now`.
  unfoldable pub on_station : Settings F → ℕ → ℕ → Daemon F → Cursor → Outcome (Handled F)
  unfolding on_status
  on_station s now later m c = do
    (p, _) ← decode (station_of s) now c
    on_status s later m p (status p)

  -- A packet that is no identification of an aprsc server.
  unfoldable pub on_data : Settings F → ℕ → ℕ → Daemon F → Cursor → Outcome (Handled F)
  unfolding on_station
  on_data s now later m c = do
    first ← char_at_index c
    if not (first == b'#')
        then on_station s now later m c
        else ok (record { control = goes_on; daemon = m; posts = [] })

  abbrev pub is_empty : Reports F → Bool
  is_empty [] = true
  is_empty (e ∷ m) = false

  -- The identification of an aprsc server.
  unfoldable pub on_identification : Settings F → Daemon F → Outcome (Handled F)
  on_identification s m = do
    repeats ← value s.influx_repeats
    posts ←
        push_if (repeats && not (is_empty m.aggregator.reports)) s.database s.influx_tls
          m.aggregator
    ok (record { control = goes_on; daemon = m; posts = posts })

  -- A packet that has been counted.
  unfoldable pub on_counted : Settings F → ℕ → ℕ → Daemon F → Cursor → Outcome (Handled F)
  unfolding on_data on_identification
  on_counted s now later m c =
      if not (prefix (codes "# aprsc") c) then on_data s now later m c else on_identification s m

  -- The whole body, on the packet that `getPacket` has left in the cursor.
  unfoldable pub on_packet : Settings F → ℕ → ℕ → Daemon F → Cursor → Outcome (Handled F)
  unfolding on_counted
  on_packet s now later m c =
      let ended = (do
        rate ← value s.server_cycle_rate
        ok (record { control = goes_on; daemon = record m { packet_count = rate }; posts = [] })) in
      if not (equal c.packet [])
      then on_counted s now later (record m { packet_count = m.packet_count + 1 }) c
      else ended
