-- ===== src/Tests/Starting.antt =====
-- The theorems on the start of `main` and on `openConnection`.
use aprs_wx.Aggregator.Reports.{assign}
use aprs_wx.Utilities.{ConfigFile, Surroundings, opened}
use aprs_wx.Daemon.Config.{ConfigItem, on_config_item, process, start_up}
use aprs_wx.Daemon.Config.Console.{start_program}
use aprs_wx.Daemon.Config.Valid.{start_up-IsConfigured}
use aprs_wx.Daemon.Handling.{Settings, on_report}
use aprs_wx.Daemon.Safety.{IsConfigured, on_report_no_tls}
use aprs_wx.Double.Formula.{Formula, formula_double, text}
use aprs_wx.Packet.Report.{wx}
use aprs_wx.Prelude.{
  Bytes, Exception, List, [], arith, codes, equal, none, ok, pos, refl, some, throws, true, ℕ, ◌+◌,
  ◌==◌, ◌∷◌, ◌≡◌,
}
use aprs_wx.Socket.Opening.{open_connection, Login, connects, is_rejected}
use aprs_wx.Socket.Opening.Servers.{open_connection-Finds, accepts}
use aprs_wx.Socket.Peers.{Peer, System, find_peer_info}
use aprs_wx.Socket.Peers.First.{find_peer_info-first_of, returned}
use aprs_wx.Socket.Receive.{arrives, end_of_file}
use aprs_wx.Socket.Receive.Lines.{Delivers, byte, last}
use aprs_wx.Std.Text.{starts_with, to_upper}
use aprs_wx.Tests.Samples.{store, gathered, home_lat, home_lon, range, weighed, weighed-HasWeight}

-- Conversions for the examples: any text is a value.
abbrev pub any_value : ConfigFile Formula
any_value = record {
  is_alnum = λ c. true;
  is_digit = λ c. true;
  to_upper = to_upper;
  parse_text = λ s test. some s;
  parse_text_by = λ s test change. some s;
  parse_boolean = λ s. some (equal s (codes "1"));
  convert_double = λ s. some (text s);
  convert_long = λ s. some (pos 50);
  convert_unsigned_long = λ s. some 20;
}

abbrev file : List (ConfigItem × Bytes)
file =
    (ConfigItem.callsign, codes "VE3YSH")
    ∷ (ConfigItem.passcode, codes "1")
    ∷ (ConfigItem.latitude, codes "45")
    ∷ (ConfigItem.longitude, codes "75")
    ∷ (ConfigItem.radius, codes "50")
    ∷ (ConfigItem.influx_tls, codes "1")
    ∷ (ConfigItem.server_cycle_rate, codes "20")
    ∷ []

start_up-IsConfigured_example :
    (login : Login) × (s : Settings Formula) × (rate : ℕ) × (start_up any_value
        (λ z. codes "50")
        (opened file)
      ≡ ok (login, s))
    × IsConfigured s rate
unfolding process on_config_item starts_with
start_up-IsConfigured_example =
    start_up-IsConfigured any_value (λ z. codes "50") file refl (refl, refl, refl, refl, refl, refl)

-- No text is a Boolean.
abbrev picky : ConfigFile Formula
picky = record any_value { parse_boolean = λ s. none }

-- `--config c.txt` on the command line, and a file that can be read.
abbrev at_home : Surroundings ConfigItem
at_home = record {
  cmd_option_exists = λ name. true;
  get_cmd_option = λ name. codes "c.txt";
  app_resources_append = λ name. name;
  shown = λ path. path;
  open_file = λ path. opened file;
  reason = λ path. codes "Permission denied";
}

start_program_messages :
    (start_program picky (λ z. codes "50") at_home).messages
    ≡ codes "Invalid config value: influxTLS\n"
      ∷ codes "Invalid configuration file c.txt exiting.\n"
      ∷ codes "Influx database not specified in c.txt, data will not be stored.\n"
      ∷ codes "Hello, CWOP APRS-IS!\n"
      ∷ codes "VE3YSH r/45/75/50\n"
      ∷ []
unfolding start_program starts_with on_config_item
start_program_messages = refl

abbrev unsure : Settings Formula
unsure = record {
  qth_latitude = home_lat;
  qth_longitude = home_lon;
  filter_radius = range;
  database = some store;
  influx_tls = none;
  influx_repeats = some true;
  server_cycle_rate = some 4;
}

on_report_no_tls_example :
    on_report unsure 9 (record { packet_count = 3; aggregator = gathered }) (wx weighed)
    ≡ throws Exception.bad_optional_access
unfolding assign
on_report_no_tls_example =
    on_report_no_tls unsure 9 (record { packet_count = 3; aggregator = gathered }) weighed store
      ((weighed-HasWeight, tt), λ i. refl) weighed-HasWeight refl refl

abbrev user : Login
user = record { call_sign = codes "VE3YSH"; pass_code = codes "1"; filter = codes "r/45/75/50" }

arrivals-Delivers : Delivers (codes "ok\n") 0 (arrives b'o' ∷ arrives b'k' ∷ arrives b'\n' ∷ [])
arrivals-Delivers = byte (omega arith) (byte (omega arith) last)

open_connection-Finds_example :
    open_connection user (
      connects (
        arrives b'o'
        ∷ arrives b'k'
        ∷ arrives b'\n'
        ∷ arrives b'o'
        ∷ arrives b'k'
        ∷ arrives b'\n'
        ∷ end_of_file
        ∷ [])
      ∷ [])
    ≡ ok (record {
      is_open = true;
      packet = codes "ok\n";
      wait_time = 0;
      sent = codes "user VE3YSH pass 1 filter r/45/75/50\r\n";
      later = end_of_file ∷ [];
      closed = 0;
    })
unfolding is_rejected
open_connection-Finds_example =
    open_connection-Finds {greeting = codes "ok\n"} {answer = codes "ok\n"} user (
      accepts (arrives b'o' ∷ arrives b'k' ∷ arrives b'\n' ∷ [])
        (arrives b'o' ∷ arrives b'k' ∷ arrives b'\n' ∷ []) refl arrivals-Delivers refl
        arrivals-Delivers)

abbrev pub network : System
network = record { socket = λ n. pos (n + 3); accepts = λ n. n == 1 }

abbrev pub peers : List Peer
peers =
    record { family = 2; address = codes "a" } ∷ record { family = 10; address = codes "b" } ∷ []

find_peer_info-first_of_example :
    (find_peer_info network (10 ∷ 2 ∷ 0 ∷ []) (some peers)
      ≡ ok (record {
        sock_fd = pos 4;
        peer = some (record { family = 2; address = codes "a" });
        attempts = 2;
        closed = pos 3 ∷ [];
      }))
    × (returned network 2 ≡ pos 3 ∷ pos 4 ∷ [])
find_peer_info-first_of_example =
    find_peer_info-first_of network (10 ∷ 2 ∷ 0 ∷ []) peers (λ n h. refl)
