-- ===== src/Daemon/Safety.antt =====
-- The body of the inner loop of `main` in src/aprs_wx.cpp, on any packet.
use aprs_wx.Aggregator.Influx.{Database}
use aprs_wx.Aggregator.Influx.Total.{push_to_influx_total}
use aprs_wx.Aggregator.Reports.{assign}
use aprs_wx.Aggregator.Reports.Laws.{assign-All, erase_old-All}
use aprs_wx.Aggregator.Sums.{WeatherAggregator}
use aprs_wx.Aggregator.Sums.Exact.{IsPaired}
use aprs_wx.Aggregator.Sums.Total.{aggregate_data_sums}
use aprs_wx.AprsIs.Cursor.{Cursor, at_start, char_at_index, prefix}
use aprs_wx.AprsIs.Decode.{decode}
use aprs_wx.AprsIs.Decode.Contract.{IsDecoded, decode-IsDecoded}
use aprs_wx.Daemon.Handling.{
  Daemon, Handled, Settings, as_report, goes_on, is_empty, on_counted, on_data, on_identification,
  on_packet, on_report, on_station, on_status, push_if, station_of, with_report,
}
use aprs_wx.Double.{Double}
use aprs_wx.Packet.Report.{Packet, WxReport, plain, status, wx}
use aprs_wx.Prelude.{
  All, Bool, Bool-cases, Bytes, Ensures, Ensures-map, Exception, List, Option, Outcome, [], ap,
  arith, codes, equal, exits, false, has_value, if◌then◌else◌, inl, inr, none, not, ok, refl, some,
  sym, throws, true, undefined, unfinished, ℕ, ◌&&◌, ◌+◌, ◌==◌, ◌>>=◌, ◌≡◌, ◌⊎◌,
}
use aprs_wx.Std.Text.Access.{byte_at, char_at_inside}
use aprs_wx.Utilities.{Post}
use mathlib.Core.Path.{subst}

-- One call fails, and another fails in the same way.
abbrev pub FailsLike : {A B : Type 0} → Outcome A → Outcome B → Type 0
FailsLike (ok a) n = ⊥
FailsLike (throws e) n = n ≡ throws e
FailsLike undefined n = n ≡ undefined
FailsLike exits n = n ≡ exits
FailsLike unfinished n = n ≡ unfinished

-- The variables that the loop reads by `value()` have values; `rate` is the server cycle rate.
abbrev pub IsConfigured : {F : Type 0} → Settings F → ℕ → Type 0
IsConfigured s rate =
    (has_value s.influx_tls ≡ true)
    × (has_value s.influx_repeats ≡ true)
    × (s.server_cycle_rate ≡ some rate)

module _ {F : Type 0} ⦃d : Double F⦄ where
  -- The report has a weight.
  abbrev pub Weighed : WxReport F → Type 0
  Weighed r = (h : F) × ((r.position).hann_value ≡ some h)

  -- Every report of the map has a weight, and each sum has its sum of weights.
  abbrev pub IsReady : WeatherAggregator F → Type 0
  IsReady a = All (λ e. Weighed e.1) a.reports × IsPaired a

  -- The body returns with a ready aggregator and the count `n`.
  abbrev pub Serves : ℕ → Outcome (Handled F) → Type 0
  Serves n m =
      (h : Handled F) × (m ≡ ok h) × IsReady h.daemon.aggregator × (h.daemon.packet_count ≡ n)

  push_if_total :
      (wanted : Bool) (db : Option Database) (tls : Option Bool) (a : WeatherAggregator F)
      → has_value tls ≡ true
      → IsPaired a
      → (posts : List Post) × (push_if wanted db tls a ≡ ok posts)
  push_if_total true (some db) (some secure) a h p = push_to_influx_total db secure a p
  push_if_total true (some db) none a h p = cc
  push_if_total true none tls a h p = ([], refl)
  push_if_total false db tls a h p = ([], refl)

  pub on_report-Serves :
      (s : Settings F) (later : ℕ) (m : Daemon F) (r : WxReport F)
      → has_value s.influx_tls ≡ true
      → IsReady m.aggregator
      → Weighed r
      → Serves m.packet_count (on_report s later m (wx r))
  unfolding on_report as_report
  on_report-Serves s later m r tls ready w =
      let kept =
        erase_old-All Weighed later (assign r.info.name r m.aggregator.reports)
          (assign-All Weighed r.info.name r m.aggregator.reports w ready.0) in
      let (a, run, same, _, _, paired) =
        aggregate_data_sums later (with_report r m.aggregator) kept in
      let (posts, pushed) = push_if_total true s.database s.influx_tls a tls paired in
      (
        record { control = goes_on; daemon = record m { aggregator = a }; posts = posts },
        rw run (rw pushed),
        (subst (All (λ e. Weighed e.1)) (sym same) kept, paired),
        refl,
      )

  on_status-Serves :
      (s : Settings F) (later : ℕ) (m : Daemon F) (p : Packet F)
      → has_value s.influx_tls ≡ true
      → IsReady m.aggregator
      → IsDecoded s.qth_latitude s.qth_longitude s.filter_radius p
      → Serves m.packet_count (on_status s later m p (status p))
  unfolding on_status
  on_status-Serves s later m (plain p) tls ready (inl e) = rw e (_, refl, ready, refl)
  on_status-Serves s later m (plain p) tls ready (inr e) = rw e (_, refl, ready, refl)
  on_status-Serves s later m (wx r) tls ready (inl (e, lat, lon, place)) =
      subst (λ st. Serves m.packet_count (on_status s later m (wx r) st)) (sym e)
        (on_report-Serves s later m r tls ready (_, ap (λ p. p.hann_value) place))
  on_status-Serves s later m (wx r) tls ready (inr (inl e)) =
      subst (λ st. Serves m.packet_count (on_status s later m (wx r) st)) (sym e)
        (_, refl, ready, refl)
  on_status-Serves s later m (wx r) tls ready (inr (inr e)) =
      subst (λ st. Serves m.packet_count (on_status s later m (wx r) st)) (sym e)
        (_, refl, ready, refl)

  -- What a call on the result of another does: it succeeds, or it fails as the other does.
  on_ok-or_fails :
      {A : Type 0} (n : ℕ) (m : Outcome A) (f : A → Outcome (Handled F))
      → Ensures (λ a. Serves n (f a)) m
      → Serves n (m >>= f) ⊎ FailsLike m (m >>= f)
  on_ok-or_fails n (ok a) f h = inl h
  on_ok-or_fails n (throws e) f h = inr refl
  on_ok-or_fails n undefined f h = inr refl
  on_ok-or_fails n exits f h = inr refl
  on_ok-or_fails n unfinished f h = inr refl

  abbrev decoded : Settings F → ℕ → Cursor → Outcome (Packet F × Cursor)
  decoded s now c = decode (station_of s) now c

  on_station-Serves :
      (s : Settings F) (now later : ℕ) (m : Daemon F) (c : Cursor)
      → has_value s.influx_tls ≡ true
      → IsReady m.aggregator
      → Serves m.packet_count (on_station s now later m c)
        ⊎ FailsLike (decoded s now c) (on_station s now later m c)
  unfolding on_station
  on_station-Serves s now later m c tls ready = on_ok-or_fails m.packet_count (decoded s now c) _ (
      Ensures-map (decoded s now c)
        (decode-IsDecoded s.qth_latitude s.qth_longitude s.filter_radius now c)
        λ a h. on_status-Serves s later m (a.0) tls ready h)

  on_data-Serves :
      (s : Settings F) (now later : ℕ) (m : Daemon F) (line : Bytes)
      → has_value s.influx_tls ≡ true
      → IsReady m.aggregator
      → Serves m.packet_count (on_data s now later m (at_start line))
        ⊎ FailsLike (decoded s now (at_start line)) (on_data s now later m (at_start line))
  unfolding on_data char_at_index
  on_data-Serves s now later m line tls ready =
      rw (char_at_inside line 0 (omega arith)) (elim (Bool-cases (byte_at line 0 == b'#')) [
        | inl server ↦ rw server (inl (_, refl, ready, refl))
        | inr station ↦ rw station (on_station-Serves s now later m (at_start line) tls ready)
      ])

  on_identification-Serves :
      (s : Settings F) (m : Daemon F) (repeats : Option Bool)
      → s.influx_repeats ≡ repeats
      → has_value repeats ≡ true
      → has_value s.influx_tls ≡ true
      → IsReady m.aggregator
      → Serves m.packet_count (on_identification s m)
  unfolding on_identification
  on_identification-Serves s m none e h tls ready = cc
  on_identification-Serves s m (some repeats) e h tls ready =
      let wanted = repeats && not (is_empty m.aggregator.reports) in
      let (posts, pushed) =
        push_if_total wanted s.database s.influx_tls m.aggregator tls (ready.1) in
      (record { control = goes_on; daemon = m; posts = posts }, rw e (rw pushed), ready, refl)

  -- With values in the variables that it reads, and from a ready aggregator, the body of the loop on
  -- any text of a packet returns with a ready aggregator, and with the count that ends the loop for no
  -- text and one more for a text; or `decode` fails on the text, and the body fails in the same way.
  pub on_packet-Serves :
      (s : Settings F) (rate now later : ℕ) (m : Daemon F) (line : Bytes)
      → IsConfigured s rate
      → IsReady m.aggregator
      → Serves
          (if equal line [] then rate else m.packet_count + 1)
          (on_packet s now later m (at_start line))
        ⊎ FailsLike
            (decode (station_of s) now (at_start line))
            (on_packet s now later m (at_start line))
  unfolding on_packet on_counted
  on_packet-Serves s rate now later m line (tls, repeats, limit) ready =
      elim (Bool-cases (equal line [])) [
        | inl none_left ↦ rw none_left (rw limit (inl (_, refl, ready, refl)))
        | inr some_left ↦
            rw some_left (elim (Bool-cases (prefix (codes "# aprsc") (at_start line))) [
              | inl server ↦
                  rw server
                    (inl (on_identification-Serves s _ s.influx_repeats refl repeats tls ready))
              | inr station ↦ rw station (on_data-Serves s now later _ line tls ready)
            ])
      ]

  -- If the database is configured but the value of `influxTLS` was not valid, the body ends by the
  -- exception `bad_optional_access` on a weather report with a weight, from a ready aggregator.
  pub on_report_no_tls :
      (s : Settings F) (later : ℕ) (m : Daemon F) (r : WxReport F) (db : Database)
      → IsReady m.aggregator
      → Weighed r
      → s.database ≡ some db
      → s.influx_tls ≡ none
      → on_report s later m (wx r) ≡ throws Exception.bad_optional_access
  unfolding on_report as_report
  on_report_no_tls s later m r db ready w database tls =
      let kept =
        erase_old-All Weighed later (assign r.info.name r m.aggregator.reports)
          (assign-All Weighed r.info.name r m.aggregator.reports w ready.0) in
      let (a, run, _, _, _, _) = aggregate_data_sums later (with_report r m.aggregator) kept in
      rw run (rw (database, tls))
