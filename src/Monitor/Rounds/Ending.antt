-- ===== src/Monitor/Rounds/Ending.antt =====
-- How `main` of src/sys_monitor.cpp ends.
use aprs_wx.Daemon.Config.{is_port}
use aprs_wx.Double.{Double}
use aprs_wx.Monitor.Config.{
  MonitorConfig, MonitorItem, initial_monitor, monitor_address, process_monitor, url_of,
}
use aprs_wx.Monitor.Hostname.{is_unknown}
use aprs_wx.Monitor.Rounds.{Findings, Host, first_reading, line_prefix, monitor_main}
use aprs_wx.Monitor.Rounds.Posting.{HasZero, Posts, monitor_loop-texts, texts}
use aprs_wx.Prelude.{All, Bytes, List, [], false, if◌then◌else◌, none, ok, refl, some, ℤ, ◌≡◌}
use aprs_wx.Utilities.{ConfigFile, opened}

module _ {F : Type 0} ⦃d : Double F⦄ (lib : ConfigFile F) (print : ℤ → Bytes) where
  -- The variables behind the configuration file.
  abbrev pub configured : List (MonitorItem × Bytes) → MonitorConfig
  configured items = process_monitor lib print items initial_monitor

  -- The path of the zone, if it exists.
  abbrev pub known_zone : Host → MonitorConfig → Bytes
  known_zone sys g = if sys.exists g.zone then g.zone else []

  abbrev pub IsKnown : Host → Type 0
  IsKnown sys = (is_unknown sys.first_answer sys.second_answer none).0 ≡ false

  -- The host name of the lines.
  abbrev pub known_name : Host → Bytes
  known_name sys = (is_unknown sys.first_answer sys.second_answer none).1.view

  -- With a known host name, a file that gives the host, the port and the name of the database, and
  -- rounds that all post, `main` returns 0 behind the signal that ends its loop, and it has posted one
  -- text in each round to that database: with the host name, the temperature of the zone, if there is
  -- one, and a usage of 0.
  pub monitor_main-texts :
      (sys : Host) (items : List (MonitorItem × Bytes)) (fs : List Findings) (host : Bytes)
      (port : ℤ) (database : Bytes)
      → IsKnown sys
      → (configured items).host ≡ some host
      → (configured items).port ≡ some port
      → (configured items).database ≡ some database
      → HasZero F print (line_prefix (known_name sys))
      → All Posts fs
      → monitor_main lib print sys (opened items) fs
        ≡ ok (record {
          exit_status = 0;
          posts =
              texts F print
                (line_prefix (known_name sys))
                (monitor_address print (configured items).use_tls host port database)
                (known_zone sys (configured items))
                fs;
        })
  unfolding monitor_main url_of
  monitor_main-texts sys items fs host port database known is_host is_port is_database z h =
      rw known (
        rw (is_host, is_port, is_database)
          (rw
            (monitor_loop-texts F print (line_prefix (known_name sys))
              (monitor_address print (configured items).use_tls host port database)
              (known_zone sys (configured items)) fs (first_reading sys.first_stat) z h)
            refl))
