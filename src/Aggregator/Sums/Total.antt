-- ===== src/Aggregator/Sums/Total.antt =====
-- `aggregateData` of src/WeatherAggregator.cpp as a whole.
use aprs_wx.Aggregator.Reports.{Reports, erase_old}
use aprs_wx.Aggregator.Sums.{
  WeatherAggregator, add_items, add_reports, aggregate_data, clear_aggregate_data,
}
use aprs_wx.Aggregator.Sums.Exact.{
  Adds-nothing, HasWeight, IsPaired, StepAdds, StepAdds->>=, add_items-StepAdds, items_pairs,
  slot_pairs, weight_sum, weighted_sum,
}
use aprs_wx.Double.{Double}
use aprs_wx.Packet.Items.{WxSym, luminosity, sym_index, weather_item_list}
use aprs_wx.Packet.Report.{Slots, WxReport}
use aprs_wx.Prelude.{
  All, Bytes, Exception, List, Option, [], ap, none, ok, refl, some, throws, ℕ, ◌++◌, ◌∙◌, ◌∷◌, ◌≡◌,
}
use mathlib.Core.List.{append-nil}
use mathlib.Core.Path.{ap₂}

-- How often the table names a symbol: the luminosity has two ranges.
abbrev pub times : WxSym → ℕ
times luminosity = 2
times _ = 1

module _ {F : Type 0} ⦃d : Double F⦄ where
  slot_pairs_twice :
      (hann : F) (o : Option F)
      → slot_pairs hann o 1 ++ (slot_pairs hann o 1 ++ []) ≡ slot_pairs hann o 2
  slot_pairs_twice hann none = refl
  slot_pairs_twice hann (some v) = refl

  items_pairs_list :
      (hann : F) (values : Slots F) (s : WxSym)
      → items_pairs hann values weather_item_list (sym_index s)
        ≡ slot_pairs hann (values (sym_index s)) (times s)
  items_pairs_list hann values luminosity = slot_pairs_twice hann (values 9)
  items_pairs_list hann values _ = append-nil _

  abbrev report_pairs : Option F → Slots F → ℕ → List (F × F)
  report_pairs none values j = []
  report_pairs (some hann) values j = items_pairs hann values weather_item_list j

  abbrev all_pairs : Reports F → ℕ → List (F × F)
  all_pairs [] j = []
  all_pairs ((key, r) ∷ m) j =
      report_pairs (r.position).hann_value r.weather_value j ++ all_pairs m j

  add_reports-StepAdds :
      (m : Reports F) (a : WeatherAggregator F)
      → All HasWeight m
      → IsPaired a
      → StepAdds a (add_reports m a) (all_pairs m)
  unfolding add_reports
  add_reports-StepAdds [] a h p = (a, refl, Adds-nothing a p)
  add_reports-StepAdds ((key, r) ∷ m) a ((hann, e), hs) p = rw e (
      StepAdds->>= a (add_items hann r.weather_value weather_item_list a) (add_reports m)
        (add_items-StepAdds hann r.weather_value weather_item_list a p)
        (λ b q. add_reports-StepAdds m b hs q))

  -- The value of symbol `s` in a report with its weight, as often as the table names the symbol.
  abbrev pub report_values : WxSym → Option F → Slots F → List (F × F)
  report_values s none values = []
  report_values s (some hann) values = slot_pairs hann (values (sym_index s)) (times s)

  -- The values of symbol `s` in the reports in the order of the map.
  abbrev pub weighted_values : WxSym → Reports F → List (F × F)
  weighted_values s [] = []
  weighted_values s ((key, r) ∷ m) =
      report_values s (r.position).hann_value r.weather_value ++ weighted_values s m

  report_pairs-report_values :
      (s : WxSym) (o : Option F) (values : Slots F)
      → report_pairs o values (sym_index s) ≡ report_values s o values
  report_pairs-report_values s none values = refl
  report_pairs-report_values s (some hann) values = items_pairs_list hann values s

  all_pairs-weighted_values :
      (s : WxSym) (m : Reports F) → all_pairs m (sym_index s) ≡ weighted_values s m
  all_pairs-weighted_values s [] = refl
  all_pairs-weighted_values s ((key, r) ∷ m) =
      ap₂ ◌++◌ (report_pairs-report_values s (r.position).hann_value r.weather_value)
        (all_pairs-weighted_values s m)

  -- `aggregateData`, if every report that is not removed carries a weight, returns with the remaining
  -- reports, and with both sums of each symbol over those reports in the order of the map: the value
  -- times the weight, and the weight, added once for each time that the table names the symbol.
  pub aggregate_data_sums :
      (now : ℕ) (a : WeatherAggregator F)
      → All HasWeight (erase_old now a.reports)
      → (b : WeatherAggregator F) × (aggregate_data now a ≡ ok b)
        × (b.reports ≡ erase_old now a.reports)
        × ((s : WxSym)
            → b.value_aggregate (sym_index s)
              ≡ weighted_sum none (weighted_values s (erase_old now a.reports)))
        × ((s : WxSym)
            → b.hann_aggregate (sym_index s)
              ≡ weight_sum none (weighted_values s (erase_old now a.reports)))
        × IsPaired b
  unfolding aggregate_data clear_aggregate_data
  aggregate_data_sums now a h =
      let m = erase_old now a.reports in
      let (b, run, adds) = add_reports-StepAdds m (clear_aggregate_data now a) h (λ i. refl) in
      (
        b,
        run,
        adds.same_reports,
        λ s. adds.sums (sym_index s) ∙ ap (weighted_sum none) (all_pairs-weighted_values s m),
        λ s. adds.weights (sym_index s) ∙ ap (weight_sum none) (all_pairs-weighted_values s m),
        adds.paired,
      )

  add_reports_unweighed :
      (pre : Reports F) (key : Bytes) (r : WxReport F) (post : Reports F) (a : WeatherAggregator F)
      → All HasWeight pre
      → IsPaired a
      → (r.position).hann_value ≡ none
      → add_reports (pre ++ (key, r) ∷ post) a ≡ throws Exception.bad_optional_access
  unfolding add_reports
  add_reports_unweighed [] key r post a h p e = rw e
  add_reports_unweighed ((k, q) ∷ pre) key r post a ((hann, w), hs) p e =
      let (b, run, adds) = add_items-StepAdds hann q.weather_value weather_item_list a p in
      rw w (rw run (add_reports_unweighed pre key r post b hs adds.paired e))

  -- If among the reports that are not removed one has no weight, and those in front of it have one,
  -- `aggregateData` ends by the exception `bad_optional_access`.
  pub aggregate_data_unweighed :
      (now : ℕ) (a : WeatherAggregator F) (pre : Reports F) (key : Bytes) (r : WxReport F)
      (post : Reports F)
      → erase_old now a.reports ≡ pre ++ (key, r) ∷ post
      → All HasWeight pre
      → (r.position).hann_value ≡ none
      → aggregate_data now a ≡ throws Exception.bad_optional_access
  unfolding aggregate_data clear_aggregate_data
  aggregate_data_unweighed now a pre key r post split h e =
      rw split (add_reports_unweighed pre key r post _ h (λ i. refl) e)
