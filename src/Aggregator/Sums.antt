-- ===== src/Aggregator/Sums.antt =====
-- `aggregateData` of src/WeatherAggregator.cpp: the sums of the weighted values and of the weights.
pub mod Exact
pub mod Total
use aprs_wx.Aggregator.Reports.{Reports, erase_old}
use aprs_wx.AprsIs.Decode.{weight}
use aprs_wx.Double.{Double, ◌⊕◌, ◌⊗◌}
use aprs_wx.Packet.Items.{WeatherItem, sym_index, weather_item_list}
use aprs_wx.Packet.Report.{Slots, no_values, set_slot}
use aprs_wx.Prelude.{List, Option, Outcome, [], none, ok, some, value, ℕ, ◌>>=◌, ◌∷◌}

-- `class WeatherAggregator`.
pub record WeatherAggregator (F : Type 0) : Type 0 where
  pub reports : Reports F
  pub value_aggregate : Slots F
  pub hann_aggregate : Slots F

abbrev pub new_aggregator : {F : Type 0} → WeatherAggregator F
new_aggregator = record { reports = []; value_aggregate = no_values; hann_aggregate = no_values }

module _ {F : Type 0} ⦃d : Double F⦄ where
  -- `clearAggregateData`.
  unfoldable pub clear_aggregate_data : ℕ → WeatherAggregator F → WeatherAggregator F
  clear_aggregate_data now a = record {
    reports = erase_old now a.reports;
    value_aggregate = no_values;
    hann_aggregate = no_values;
  }

  -- The sums of one slot: `value` has come in with the weight `hann`. The weight of a slot that has a
  -- value is read by `value()`.
  unfoldable pub add_weighted : F → F → Option F → Option F → Outcome (F × F)
  add_weighted v hann none h = ok (v ⊗ hann, hann)
  add_weighted v hann (some sum) h = do weight ← value h; ok (sum ⊕ v ⊗ hann, weight ⊕ hann)

  -- The body of the loop over the items, on the item's slot `i`.
  unfoldable pub add_item : F → Option F → ℕ → WeatherAggregator F → Outcome (WeatherAggregator F)
  add_item hann none i a = ok a
  add_item hann (some v) i a = do
    (sum, weight) ← add_weighted v hann (a.value_aggregate i) (a.hann_aggregate i)
    ok (record a {
      value_aggregate = set_slot a.value_aggregate i sum;
      hann_aggregate = set_slot a.hann_aggregate i weight;
    })

  unfoldable pub add_items :
      F → Slots F → List WeatherItem → WeatherAggregator F → Outcome (WeatherAggregator F)
  unfolding add_item
  add_items hann values [] a = ok a
  add_items hann values (it ∷ items) a = do
    a' ← add_item hann (values (sym_index it.wx_sym)) (sym_index it.wx_sym) a
    add_items hann values items a'

  unfoldable pub add_reports : Reports F → WeatherAggregator F → Outcome (WeatherAggregator F)
  add_reports [] a = ok a
  add_reports ((key, r) ∷ m) a = do
    hann ← value (r.position.hann_value)
    a' ← add_items hann r.weather_value weather_item_list a
    add_reports m a'

  unfoldable pub aggregate_data : ℕ → WeatherAggregator F → Outcome (WeatherAggregator F)
  aggregate_data now a =
      let cleared = clear_aggregate_data now a in add_reports cleared.reports cleared
