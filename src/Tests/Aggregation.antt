-- ===== src/Tests/Aggregation.antt =====
-- The theorems of the aggregator.
use aprs_wx.Aggregator.Influx.{print_influx_format}
use aprs_wx.Aggregator.Influx.Lines.{influx_text, mean_of, print_influx_format-influx_text}
use aprs_wx.Aggregator.Reports.{assign, erase_old, find_report, is_old}
use aprs_wx.Aggregator.Reports.Order.{IsSorted, erase_old-assign}
use aprs_wx.Aggregator.Sums.{WeatherAggregator, aggregate_data}
use aprs_wx.Aggregator.Sums.Exact.{IsPaired, weight_sum, weighted_sum}
use aprs_wx.Aggregator.Sums.Total.{aggregate_data_sums, aggregate_data_unweighed, weighted_values}
use aprs_wx.Double.Formula.{Formula, formula_double}
use aprs_wx.Packet.Items.{WxSym, sym_index}
use aprs_wx.Packet.Report.{new_report}
use aprs_wx.Prelude.{Exception, [], codes, none, ok, refl, throws, ◌∷◌, ◌≡◌}
use aprs_wx.Tests.Samples.{call, gathered, weighed, weighed-HasWeight}

aggregate_data_sums_example :
    (b : WeatherAggregator Formula) × (aggregate_data 8 gathered ≡ ok b)
    × (b.reports ≡ erase_old 8 gathered.reports)
    × ((s : WxSym)
        → b.value_aggregate (sym_index s)
          ≡ weighted_sum none (weighted_values s (erase_old 8 gathered.reports)))
    × ((s : WxSym)
        → b.hann_aggregate (sym_index s)
          ≡ weight_sum none (weighted_values s (erase_old 8 gathered.reports)))
    × IsPaired b
unfolding erase_old assign
aggregate_data_sums_example = aggregate_data_sums 8 gathered (weighed-HasWeight, tt)

aggregate_data_unweighed_example :
    aggregate_data 8
      (record gathered { reports = (codes "A", weighed) ∷ (codes "B", new_report 7) ∷ [] })
    ≡ throws Exception.bad_optional_access
unfolding erase_old
aggregate_data_unweighed_example =
    aggregate_data_unweighed 8
      (record gathered { reports = (codes "A", weighed) ∷ (codes "B", new_report 7) ∷ [] })
      ((codes "A", weighed) ∷ []) (codes "B") (new_report 7) [] refl (weighed-HasWeight, tt) refl

erase_old-assign_example :
    IsSorted (erase_old 6000 (assign (codes "B") (new_report 5000) gathered.reports))
    × (find_report call (erase_old 6000 (assign (codes "B") (new_report 5000) gathered.reports))
        ≡ none)
unfolding assign find_report is_old
erase_old-assign_example =
    erase_old-assign 6000 (codes "B") call (new_report 5000) gathered.reports (tt, tt)

print_influx_format-influx_text_example :
    print_influx_format (codes "aggregate ") gathered
    ≡ ok (influx_text (codes "aggregate ") (mean_of gathered))
print_influx_format-influx_text_example =
    print_influx_format-influx_text (codes "aggregate ") gathered (λ i. refl)
