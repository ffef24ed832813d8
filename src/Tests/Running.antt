-- ===== src/Tests/Running.antt =====
-- The theorem of what `main` posts behind a weather report.
use aprs_wx.Aggregator.Reports.{assign}
use aprs_wx.Daemon.Handling.{Daemon, Handled, Settings, goes_on, on_report}
use aprs_wx.Daemon.Output.{on_report-Output, post_of, reports_text, reports_with}
use aprs_wx.Double.Formula.{Formula, formula_double}
use aprs_wx.Packet.Report.{WxReport, wx}
use aprs_wx.Prelude.{codes, false, ok, refl, some, true, ◌≡◌}
use aprs_wx.Tests.Samples.{gathered, home_lat, home_lon, range, store, weighed, weighed-HasWeight}

abbrev settings : Settings Formula
settings = record {
  qth_latitude = home_lat;
  qth_longitude = home_lon;
  filter_radius = range;
  database = some store;
  influx_tls = some false;
  influx_repeats = some true;
  server_cycle_rate = some 1;
}

-- A daemon with one report, and a report of another station.
abbrev running : Daemon Formula
running = record { packet_count = 3; aggregator = gathered }

abbrev other : WxReport Formula
other = record weighed { info = record weighed.info { name = codes "VE3OTHER" } }

on_report-Output_example :
    (h : Handled Formula) × (on_report settings 9 running (wx other) ≡ ok h)
    × (h.control ≡ goes_on)
    × (h.daemon.aggregator.reports ≡ reports_with 9 other gathered.reports)
    × (h.posts ≡ post_of store false (reports_text (reports_with 9 other gathered.reports)))
unfolding assign
on_report-Output_example =
    on_report-Output settings 9 running other store false ((weighed-HasWeight, tt), λ i. refl)
      weighed-HasWeight refl refl
