-- ===== src/Tests/Hearing.antt =====
-- The theorems of the loops against the map of reports.
use aprs_wx.Aggregator.Sums.{new_aggregator}
use aprs_wx.AprsIs.Coordinate.{latitude_ddm_msss, longitude_ddm_msss, signed_degrees}
use aprs_wx.AprsIs.Coordinate.Outcomes.{coordinate}
use aprs_wx.AprsIs.Cursor.{prefix}
use aprs_wx.AprsIs.Decode.Body.{completed, dated}
use aprs_wx.AprsIs.Decode.Header.{packet_text}
use aprs_wx.AprsIs.Decode.Loop.{Reads}
use aprs_wx.AprsIs.Decode.Packets.{decode_outcome}
use aprs_wx.AprsIs.Decode.Weather.{located, wind_slots}
use aprs_wx.Daemon.Config.{ConfigItem, configure, filter_of, on_config_item, process, start_up}
use aprs_wx.Daemon.Handling.{Daemon, Settings}
use aprs_wx.Daemon.Heard.{Heard, hear_all, heard, heard_report, heard_server, heard_status}
use aprs_wx.Daemon.Heard.Connections.{Turns, hear_turns, run_main-Says, turns_down, turns_up}
use aprs_wx.Daemon.Heard.Loop.{Brings, Says, brings_enough, brings_text, inner_loop-Says}
use aprs_wx.Daemon.Heard.Steps.{new_aggregator-IsSummed}
use aprs_wx.Daemon.Heard.Texts.{heard-heard_report}
use aprs_wx.Daemon.Session.{inner_loop}
use aprs_wx.Daemon.Visits.{Visit, run_main, status_of}
use aprs_wx.Double.Formula.{Formula, formula_double, text}
use aprs_wx.Packet.Convert.{safe_convert_double, safe_convert_long}
use aprs_wx.Packet.Report.{Slots, WxReport, status}
use aprs_wx.Prelude.{
  All, Bytes, List, Option, [], ap, arith, codes, drop, false, map, none, ok, pos, refl, some, true,
  ℕ, ◌++◌, ◌>>=◌, ◌∷◌, ◌≡◌,
}
use aprs_wx.Socket.Opening.{
  Login, Opened, connects, is_rejected, login_line, open_connection, refused,
}
use aprs_wx.Socket.Receive.{get_packet}
use aprs_wx.Std.Text.{c_string, starts_with, to_upper}
use aprs_wx.Std.Text.Access.{byte_at}
use aprs_wx.Tests.Samples.{
  call, call-Lacks, header-Lacks, home_lat, home_lon, range, route, store, weather,
}
use aprs_wx.Tests.Serving.{arrivals, clock, identity, settings}
use aprs_wx.Tests.Starting.{any_value}
use aprs_wx.Utilities.{ConfigFile, opened}

-- The text of a weather report is heard as a report, at every time.
abbrev line : Bytes
line = packet_text call route b'!' weather

heard_weather :
    (s : Settings Formula) (now : ℕ)
    → (r : WxReport Formula) × (heard s now line ≡ ok (heard_report r))
unfolding prefix signed_degrees safe_convert_long safe_convert_double c_string to_upper
heard_weather s now =
    let (v, n, c', run, fields) =
      decode_outcome s.qth_latitude s.qth_longitude s.filter_radius now call route b'!' weather
        call-Lacks header-Lacks (omega arith) refl (omega arith) in
    (_, ap (λ o. o >>= λ a. ok (heard_status (status a.0) a.0)) run)

-- Two packets are awaited: the report, and the identification of the server.
abbrev two_packets : Settings Formula
two_packets = record settings { server_cycle_rate = some 5 }

abbrev report_at : ℕ → Heard Formula
report_at now = heard_report (heard_weather two_packets now).0

abbrev said_texts : List (Heard Formula)
said_texts = report_at (clock.decoded_at 3) ∷ heard_server ∷ []

said_texts-Brings : Brings two_packets clock 5 3 0 (arrivals line ++ arrivals identity) said_texts
unfolding get_packet prefix
said_texts-Brings =
    brings_text (record { packet = line; wait_time = 0; later = arrivals identity })
      (report_at (clock.decoded_at 3)) (omega arith) refl
      (heard_weather two_packets (clock.decoded_at 3)).1 refl
      (brings_text (record { packet = identity; wait_time = 0; later = [] }) heard_server
        (omega arith) refl refl refl (brings_enough (omega arith)))

abbrev begun : Daemon Formula
begun = record { packet_count = 3; aggregator = new_aggregator }

inner_loop-Says_example :
    Says
      (hear_all (some store) false true clock.aggregated_at 5 3 said_texts [])
      (inner_loop 3 two_packets clock begun 0 (arrivals line ++ arrivals identity))
inner_loop-Says_example =
    inner_loop-Says 2 two_packets false true 5 clock begun (refl, refl, refl)
      new_aggregator-IsSummed (omega arith) said_texts-Brings

-- A file that sets the five items without default value, the database, and one packet per connection.
abbrev lib : ConfigFile Formula
lib = record any_value { convert_unsigned_long = λ s. some 1 }

abbrev items : List (ConfigItem × Bytes)
items =
    (ConfigItem.callsign, codes "VE3YSH")
    ∷ (ConfigItem.passcode, codes "1")
    ∷ (ConfigItem.latitude, codes "45.4")
    ∷ (ConfigItem.longitude, codes "75.7")
    ∷ (ConfigItem.radius, codes "50")
    ∷ (ConfigItem.influx_host, codes "db")
    ∷ (ConfigItem.influx_port, codes "8086")
    ∷ (ConfigItem.influx_db, codes "wx")
    ∷ (ConfigItem.influx_repeats, codes "1")
    ∷ (ConfigItem.server_cycle_rate, codes "1")
    ∷ []

abbrev read_login : Login
read_login = record {
  call_sign = codes "VE3YSH";
  pass_code = codes "1";
  filter = filter_of (λ z. codes "50") (text (codes "45.4")) (text (codes "75.7")) (pos 50);
}

abbrev read_settings : Settings Formula
read_settings = record {
  qth_latitude = text (codes "45.4");
  qth_longitude = text (codes "75.7");
  filter_radius = formula_double.of_long (pos 50);
  database = some (record { host = codes "db"; port = 50; database = codes "wx" });
  influx_tls = some false;
  influx_repeats = some true;
  server_cycle_rate = some 1;
}

abbrev report_behind : ℕ → Heard Formula
report_behind now = heard_report (heard_weather read_settings now).0

-- The first connection is refused; on the second there is a report, and on the third a server.
abbrev turn_texts : List (Visit × List (Heard Formula))
turn_texts =
    (record { attempts = refused ∷ []; clock = clock }, [])
    ∷ (
      record { attempts = connects (arrivals (codes "ok\nok\n" ++ line)) ∷ []; clock = clock },
      report_behind 0 ∷ [],
    )
    ∷ (
      record { attempts = connects (arrivals (codes "ok\nok\n" ++ identity)) ∷ []; clock = clock },
      heard_server ∷ [],
    )
    ∷ []

abbrev opened_with : Bytes → Opened
opened_with more = record {
  is_open = true;
  packet = codes "ok\n";
  wait_time = 0;
  sent = login_line read_login;
  later = arrivals more;
  closed = 0;
}

turn_texts-Turns : All (λ p. Turns read_settings 1 read_login p.0 p.1) turn_texts
unfolding open_connection get_packet is_rejected prefix
turn_texts-Turns = (
  turns_down
      (record { is_open = false; packet = []; wait_time = 0; sent = []; later = []; closed = 0 })
      refl refl,
  (
    turns_up (opened_with line) refl refl (
        brings_text (record { packet = line; wait_time = 0; later = [] }) (report_behind 0)
          (omega arith) refl (heard_weather read_settings 0).1 refl (brings_enough (omega arith))),
    (
      turns_up (opened_with identity) refl refl (
          brings_text (record { packet = identity; wait_time = 0; later = [] }) heard_server
            (omega arith) refl refl refl (brings_enough (omega arith))),
      tt,
    ),
  ),
)

run_main-Says_example :
    (let said = hear_turns read_settings.database false true 1 turn_texts [] in
      run_main 2 lib (λ z. codes "50") (opened items) (map (λ p. p.0) turn_texts)
      ≡ ok (record { exit_status = status_of said.control; posts = said.posts }))
unfolding start_up configure process on_config_item starts_with
run_main-Says_example =
    run_main-Says lib (λ z. codes "50") (opened items) read_login read_settings false true 1
      turn_texts refl (refl, refl, refl) turn_texts-Turns

-- The coordinates of the text.
abbrev or_pi : Option Formula → Formula
or_pi none = formula_double.pi
or_pi (some a) = a

abbrev weather_lat : Formula
weather_lat = or_pi (coordinate latitude_ddm_msss weather)

abbrev weather_lon : Formula
weather_lon = or_pi (coordinate longitude_ddm_msss (drop 9 weather))

heard-heard_report_example :
    (v : Slots Formula) × (n : ℕ) × (heard settings 8 line
      ≡ ok (
          heard_report (
            completed
              (located home_lat home_lon range weather_lat weather_lon)
              (byte_at weather 8)
              (byte_at weather 18)
              v
              (dated 8 call []))))
    × Reads (drop 26 weather) (wind_slots (drop 19 weather)) v n
unfolding signed_degrees safe_convert_long safe_convert_double c_string to_upper
heard-heard_report_example =
    heard-heard_report settings 8 b'V' (codes "E3YSH") route b'!' weather weather_lat weather_lon
      refl call-Lacks header-Lacks (omega arith) refl (omega arith) refl refl
