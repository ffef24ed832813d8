-- ===== src/Daemon/Output.antt =====
-- What `main` of src/aprs_wx.cpp posts to the database behind a weather report.
use aprs_wx.Aggregator.Influx.{Database, address_of, push_to_influx}
use aprs_wx.Aggregator.Influx.Lines.{
  converted_mean, influx_text, print_influx_format-influx_text, units_of,
}
use aprs_wx.Aggregator.Reports.{Reports, assign, erase_old}
use aprs_wx.Aggregator.Reports.Laws.{assign-All, erase_old-All}
use aprs_wx.Aggregator.Sums.{WeatherAggregator}
use aprs_wx.Aggregator.Sums.Exact.{IsPaired, weight_sum, weighted_sum}
use aprs_wx.Aggregator.Sums.Total.{aggregate_data_sums, weighted_values}
use aprs_wx.Daemon.Handling.{Daemon, Handled, Settings, as_report, goes_on, on_report, with_report}
use aprs_wx.Daemon.Safety.{IsReady, Weighed}
use aprs_wx.Double.{Double}
use aprs_wx.Packet.Items.{WxSym, sym_index}
use aprs_wx.Packet.Report.{WxReport, wx}
use aprs_wx.Prelude.{
  Bool, Bytes, List, Option, [], ap, codes, equal, if◌then◌else◌, none, ok, refl, some, ℕ, ◌∷◌, ◌≡◌,
}
use aprs_wx.Utilities.{Post}
use mathlib.Core.Path.{ap₂, fun_ext}

-- The transfer of a text, if it is not empty.
abbrev pub post_of : Database → Bool → Bytes → List Post
post_of db secure word =
    if equal word [] then [] else record { url = address_of db secure; body = word } ∷ []

module _ {F : Type 0} ⦃d : Double F⦄ where
  -- The mean of the values of a symbol by their weights, in the units of the database.
  abbrev pub mean_over : Reports F → WxSym → Option F
  mean_over m s =
      let pairs = weighted_values s m in
      converted_mean (units_of s) (weighted_sum none pairs) (weight_sum none pairs)

  -- The text on the reports of a map.
  abbrev pub reports_text : Reports F → Bytes
  reports_text m = influx_text (codes "aggregate,call=VE3YSH ") (mean_over m)

  -- `pushToInflux`, with the sums of a map.
  pub push_to_influx-reports_text :
      (db : Database) (secure : Bool) (m : Reports F) (a : WeatherAggregator F)
      → ((s : WxSym) → a.value_aggregate (sym_index s) ≡ weighted_sum none (weighted_values s m))
      → ((s : WxSym) → a.hann_aggregate (sym_index s) ≡ weight_sum none (weighted_values s m))
      → IsPaired a
      → push_to_influx db secure a ≡ ok (post_of db secure (reports_text m))
  unfolding push_to_influx
  push_to_influx-reports_text db secure m a sums weights paired =
      rw (print_influx_format-influx_text (codes "aggregate,call=VE3YSH ") a paired) (
        ap (λ mean. ok (post_of db secure (influx_text (codes "aggregate,call=VE3YSH ") mean)))
          (fun_ext λ s. ap₂ (converted_mean (units_of s)) (sums s) (weights s)))

  -- The reports behind a report that comes in at time `later`: an older one of the same station is
  -- replaced, and those that are too old at that time are removed.
  abbrev pub reports_with : ℕ → WxReport F → Reports F → Reports F
  reports_with later r m = erase_old later (assign r.info.name r m)

  -- From a ready aggregator, with a database and a valid value of `influxTLS`, the loop behind a weather
  -- report with a weight goes on, its reports are the earlier ones with this one less those that are
  -- too old, and it posts the text on these reports, if it is not empty: for each symbol with a value,
  -- the sum of the values by their weights, divided by the sum of the weights, in the units of the
  -- database.
  pub on_report-Output :
      (s : Settings F) (later : ℕ) (m : Daemon F) (r : WxReport F) (db : Database) (secure : Bool)
      → IsReady m.aggregator
      → Weighed r
      → s.database ≡ some db
      → s.influx_tls ≡ some secure
      → (h : Handled F) × (on_report s later m (wx r) ≡ ok h)
        × (h.control ≡ goes_on)
        × (h.daemon.aggregator.reports ≡ reports_with later r m.aggregator.reports)
        × (h.posts ≡ post_of db secure (reports_text (reports_with later r m.aggregator.reports)))
  unfolding on_report as_report
  on_report-Output s later m r db secure ready w database tls =
      let kept =
        erase_old-All Weighed later (assign r.info.name r m.aggregator.reports)
          (assign-All Weighed r.info.name r m.aggregator.reports w ready.0) in
      let (a, run, same, sums, weights, paired) =
        aggregate_data_sums later (with_report r m.aggregator) kept in
      (
        record {
          control = goes_on;
          daemon = record m { aggregator = a };
          posts = post_of db secure (reports_text (reports_with later r m.aggregator.reports));
        },
        rw run (
            rw (database, tls)
              (rw
                (push_to_influx-reports_text db secure (reports_with later r m.aggregator.reports) a
                  sums weights paired)
                refl)),
        refl,
        same,
        refl,
      )
