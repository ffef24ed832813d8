-- ===== src/Aggregator/Influx/Total.antt =====
-- The calls of `value()` in `printInfluxFormat` of src/WeatherAggregator.cpp.
use aprs_wx.Aggregator.Influx.{
  Database, Gathered, address_of, chill_line, comfort_lines, print_influx_format, print_item,
  print_items, push_to_influx,
}
use aprs_wx.Aggregator.Sums.{WeatherAggregator}
use aprs_wx.Aggregator.Sums.Exact.{IsPaired}
use aprs_wx.AprsIs.Decode.{weight}
use aprs_wx.Double.{Double}
use aprs_wx.Packet.Items.{WeatherItem, sym_index, weather_item_list}
use aprs_wx.Prelude.{
  Bool, Bool-cases, Bytes, List, Option, [], codes, equal, has_value, if◌then◌else◌, inl, inr, none,
  ok, refl, some, ◌++◌, ◌==◌, ◌∷◌, ◌≡◌,
}
use aprs_wx.Utilities.{Post}

module _ {F : Type 0} ⦃d : Double F⦄ where
  print_item_total :
      (pre : Bytes) (it : WeatherItem) (sum weight : Option F) (g : Gathered F)
      → has_value sum ≡ has_value weight
      → (g' : Gathered F) × (print_item pre it sum weight g ≡ ok g')
  unfolding print_item
  print_item_total pre it none weight g h = (_, refl)
  print_item_total pre it (some s) (some w) g h = (_, refl)
  print_item_total pre it (some s) none g h = cc

  print_items_total :
      (pre : Bytes) (items : List WeatherItem) (a : WeatherAggregator F) (g : Gathered F)
      → IsPaired a
      → (g' : Gathered F) × (print_items pre items a g ≡ ok g')
  unfolding print_items
  print_items_total pre [] a g p = (g, refl)
  print_items_total pre (it ∷ items) a g p = elim (Bool-cases (it.wx_flag == b'l')) [
    | inl high ↦ let (g', run) = print_items_total pre items a g p in (g', rw high run)
    | inr plain_item ↦
        let i = sym_index it.wx_sym in
        let (g1, first) =
          print_item_total pre it (a.value_aggregate i) (a.hann_aggregate i) g (p i) in
        let (g', run) = print_items_total pre items a g1 p in (g', rw plain_item (rw first run))
  ]

  print_influx_format_total :
      (pre : Bytes) (a : WeatherAggregator F)
      → IsPaired a
      → (post : Bytes) × (print_influx_format pre a ≡ ok post)
  unfolding print_influx_format
  print_influx_format_total pre a p =
      let (g, run) =
        print_items_total pre weather_item_list a
          (record { out = []; temperature = none; rel_humidity = none; wind_gust = none }) p in
      (
        g.out
            ++ (comfort_lines pre g.temperature g.rel_humidity
                ++ chill_line pre g.temperature g.wind_gust),
        rw run,
      )

  -- With sums and weights in pairs, `pushToInflux` reads no absent weight: it returns, with what it
  -- posts.
  pub push_to_influx_total :
      (db : Database) (secure : Bool) (a : WeatherAggregator F)
      → IsPaired a
      → (posts : List Post) × (push_to_influx db secure a ≡ ok posts)
  unfolding push_to_influx
  push_to_influx_total db secure a p =
      let (post, run) = print_influx_format_total (codes "aggregate,call=VE3YSH ") a p in
      (
        (if equal post [] then [] else record { url = address_of db secure; body = post } ∷ []),
        rw run,
      )
