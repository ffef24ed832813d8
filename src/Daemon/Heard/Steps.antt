-- ===== src/Daemon/Heard/Steps.antt =====
-- The body of the inner loop of `main` in src/aprs_wx.cpp against the map of reports.
use aprs_wx.Aggregator.Influx.{Database}
use aprs_wx.Aggregator.Reports.{assign, erase_old}
use aprs_wx.Aggregator.Reports.Laws.{assign-All, erase_old-All}
use aprs_wx.Aggregator.Sums.{WeatherAggregator, aggregate_data, new_aggregator}
use aprs_wx.Aggregator.Sums.Exact.{weight_sum, weighted_sum}
use aprs_wx.Aggregator.Sums.Total.{aggregate_data_sums, weighted_values}
use aprs_wx.AprsIs.Cursor.{at_start, char_at_index, prefix}
use aprs_wx.AprsIs.Decode.{decode}
use aprs_wx.AprsIs.Decode.Contract.{IsDecoded, decode-IsDecoded}
use aprs_wx.Daemon.Handling.{
  Daemon, Handled, Settings, as_report, goes_on, is_empty, on_counted, on_data, on_identification,
  on_packet, on_report, on_station, on_status, push_if, station_of, with_report,
}
use aprs_wx.Daemon.Heard.{
  Heard, Said, announce, count_of, hear, heard, heard_data, heard_report, heard_status,
}
use aprs_wx.Daemon.Output.{push_to_influx-reports_text}
use aprs_wx.Daemon.Safety.{IsReady, Weighed}
use aprs_wx.Double.{Double}
use aprs_wx.Packet.Items.{WxSym, sym_index}
use aprs_wx.Packet.Report.{Packet, WxReport, plain, status, wx}
use aprs_wx.Packet.Status.{PacketStatus}
use aprs_wx.Prelude.{
  All, Bool, Bool-cases, Bytes, Ensures, Ensures-map, Option, Outcome, [], ap, arith, codes, equal,
  exits, false, if◌then◌else◌, inl, inr, none, not, ok, refl, some, sym, throws, true, undefined,
  unfinished, ℕ, ◌&&◌, ◌+◌, ◌==◌, ◌>>=◌, ◌∙◌, ◌≡◌,
}
use aprs_wx.Std.Text.Access.{byte_at, char_at_inside}
use mathlib.Core.Path.{subst}

module _ {F : Type 0} ⦃d : Double F⦄ where
  -- Every report has a weight, and the sums are those over the reports.
  abbrev pub IsSummed : WeatherAggregator F → Type 0
  IsSummed a =
      IsReady a
      × ((s : WxSym)
          → a.value_aggregate (sym_index s) ≡ weighted_sum none (weighted_values s a.reports))
      × ((s : WxSym)
          → a.hann_aggregate (sym_index s) ≡ weight_sum none (weighted_values s a.reports))

  pub new_aggregator-IsSummed : IsSummed new_aggregator
  new_aggregator-IsSummed = ((tt, λ i. refl), λ s. refl, λ s. refl)

  -- The body has returned with what `said` says, summed, and with the count `n`.
  abbrev pub Does : ℕ → Said F → Outcome (Handled F) → Type 0
  Does n said m =
      (h : Handled F) × (m ≡ ok h)
      × (h.control ≡ said.control)
      × (h.daemon.aggregator.reports ≡ said.reports)
      × (h.posts ≡ said.posts)
      × IsSummed h.daemon.aggregator
      × (h.daemon.packet_count ≡ n)

  push_if-announce :
      (wanted : Bool) (db : Option Database) (tls : Option Bool) (secure : Bool)
      (a : WeatherAggregator F)
      → tls ≡ some secure
      → IsSummed a
      → push_if wanted db tls a ≡ ok (if wanted then announce db secure a.reports else [])
  push_if-announce true (some db) tls secure a e (ready, sums, weights) =
      rw e (push_to_influx-reports_text db secure a.reports a sums weights ready.1)
  push_if-announce true none tls secure a e summed = refl
  push_if-announce false db tls secure a e summed = refl

  aggregate_data-IsSummed :
      (later : ℕ) (a : WeatherAggregator F)
      → All (λ e. Weighed e.1) (erase_old later a.reports)
      → (b : WeatherAggregator F) × (aggregate_data later a ≡ ok b)
        × (b.reports ≡ erase_old later a.reports)
        × IsSummed b
  aggregate_data-IsSummed later a kept =
      let (b, run, same, sums, weights, paired) = aggregate_data_sums later a kept in
      (
        b,
        run,
        same,
        (
          (subst (All (λ e. Weighed e.1)) (sym same) kept, paired),
          λ s. sums s ∙ ap (λ m. weighted_sum none (weighted_values s m)) (sym same),
          λ s. weights s ∙ ap (λ m. weight_sum none (weighted_values s m)) (sym same),
        ),
      )

  -- The values of the settings that the body reads.
  abbrev pub HasSettings : Settings F → Bool → Bool → ℕ → Type 0
  HasSettings s secure repeats rate =
      (s.influx_tls ≡ some secure)
      × (s.influx_repeats ≡ some repeats)
      × (s.server_cycle_rate ≡ some rate)

  on_report-Does :
      (s : Settings F) (secure repeats : Bool) (later : ℕ) (m : Daemon F) (r : WxReport F)
      → s.influx_tls ≡ some secure
      → IsSummed m.aggregator
      → Weighed r
      → Does m.packet_count
          (hear s.database secure repeats later (heard_report r) m.aggregator.reports)
          (on_report s later m (wx r))
  unfolding on_report as_report
  on_report-Does s secure repeats later m r tls (ready, _, _) w =
      let kept =
        erase_old-All Weighed later (assign r.info.name r m.aggregator.reports)
          (assign-All Weighed r.info.name r m.aggregator.reports w ready.0) in
      let (a, run, same, summed) =
        aggregate_data-IsSummed later (with_report r m.aggregator) kept in
      let posts = announce s.database secure a.reports in
      (
        record { control = goes_on; daemon = record m { aggregator = a }; posts = posts },
        rw run (rw (push_if-announce true s.database s.influx_tls secure a tls summed)),
        refl,
        same,
        ap (announce s.database secure) same,
        summed,
        refl,
      )

  on_status-Does :
      (s : Settings F) (secure repeats : Bool) (later : ℕ) (m : Daemon F) (p : Packet F)
      (st : PacketStatus)
      → status p ≡ st
      → s.influx_tls ≡ some secure
      → IsSummed m.aggregator
      → IsDecoded s.qth_latitude s.qth_longitude s.filter_radius p
      → Does m.packet_count
          (hear s.database secure repeats later (heard_status st p) m.aggregator.reports)
          (on_status s later m p st)
  unfolding on_status
  on_status-Does s secure repeats later m p PacketStatus.decoding_error e tls summed decoded_ =
      (_, refl, refl, refl, refl, summed, refl)
  on_status-Does s secure repeats later m (wx r) PacketStatus.wx_packet e tls summed
        (inl (_, lat, lon, place)) =
      on_report-Does s secure repeats later m r tls summed (_, ap (λ p. p.hann_value) place)
  on_status-Does s secure repeats later m (wx r) PacketStatus.wx_packet e tls summed
        (inr (inl e')) =
      cc
  on_status-Does s secure repeats later m (wx r) PacketStatus.wx_packet e tls summed
        (inr (inr e')) =
      cc
  on_status-Does s secure repeats later m (plain p) PacketStatus.wx_packet e tls summed (inl e') =
      cc
  on_status-Does s secure repeats later m (plain p) PacketStatus.wx_packet e tls summed (inr e') =
      cc
  on_status-Does s secure repeats later m p _ e tls summed decoded_ =
      (_, refl, refl, refl, refl, summed, refl)

  -- Two calls behind the same one.
  Ensures-both :
      {A : Type 0} (Q : Heard F → Outcome (Handled F) → Type 0) (m : Outcome A)
      (f : A → Outcome (Handled F)) (g : A → Heard F)
      → Ensures (λ a. Q (g a) (f a)) m
      → Ensures (λ x. Q x (m >>= f)) (m >>= (λ a. ok (g a)))
  Ensures-both Q (ok a) f g h = h
  Ensures-both Q (throws e) f g h = tt
  Ensures-both Q undefined f g h = tt
  Ensures-both Q exits f g h = tt
  Ensures-both Q unfinished f g h = tt

  count_heard :
      (rate n : ℕ) (st : PacketStatus) (p : Packet F) → count_of rate n (heard_status st p) ≡ n + 1
  count_heard rate n PacketStatus.wx_packet (wx r) = refl
  count_heard rate n PacketStatus.wx_packet (plain p) = refl
  count_heard rate n PacketStatus.decoding_error p = refl
  count_heard rate n _ p = refl

  on_station-Does :
      (s : Settings F) (secure repeats : Bool) (rate now later : ℕ) (m : Daemon F) (line : Bytes)
      → s.influx_tls ≡ some secure
      → IsSummed m.aggregator
      → Ensures
          (λ x.
            Does
              (count_of rate m.packet_count x)
              (hear s.database secure repeats later x m.aggregator.reports)
              (on_station s now later
                (record m { packet_count = m.packet_count + 1 })
                (at_start line)))
          (heard_data s now line)
  unfolding on_station
  on_station-Does s secure repeats rate now later m line tls summed =
      let m' : Daemon F = record m { packet_count = m.packet_count + 1 } in
      Ensures-both
        (λ x n.
          Does (count_of rate m.packet_count x)
            (hear s.database secure repeats later x m.aggregator.reports) n)
        (decode (station_of s) now (at_start line)) (λ a. on_status s later m' a.0 (status a.0))
        (λ a. heard_status (status a.0) a.0)
        (Ensures-map (decode (station_of s) now (at_start line))
          (decode-IsDecoded s.qth_latitude s.qth_longitude s.filter_radius now (at_start line))
          λ a h.
            rw (count_heard rate m.packet_count (status a.0) a.0)
              (on_status-Does s secure repeats later m' a.0 (status a.0) refl tls summed h))

  -- With the settings `secure`, `repeats` and `rate`, and from a summed aggregator, the body on any text
  -- does what `hear` says for what the text is heard as.
  pub on_packet-Does :
      (s : Settings F) (secure repeats : Bool) (rate now later : ℕ) (m : Daemon F) (line : Bytes)
      → HasSettings s secure repeats rate
      → IsSummed m.aggregator
      → Ensures
          (λ x.
            Does
              (count_of rate m.packet_count x)
              (hear s.database secure repeats later x m.aggregator.reports)
              (on_packet s now later m (at_start line)))
          (heard s now line)
  unfolding on_packet on_counted on_data on_identification char_at_index
  on_packet-Does s secure repeats rate now later m line (tls, reps, limit) summed =
      elim (Bool-cases (equal line [])) [
        | inl none_left ↦ rw none_left (rw limit (_, refl, refl, refl, refl, summed, refl))
        | inr some_left ↦
            rw some_left (elim (Bool-cases (prefix (codes "# aprsc") (at_start line))) [
              | inl server ↦ rw server (
                  rw reps (
                    rw
                      (push_if-announce (repeats && not (is_empty m.aggregator.reports)) s.database
                        s.influx_tls secure m.aggregator tls summed)
                      (_, refl, refl, refl, refl, summed, refl)))
              | inr client ↦ rw client (
                  rw (char_at_inside line 0 (omega arith))
                    (elim (Bool-cases (byte_at line 0 == b'#')) [
                      | inl mark ↦ rw mark (_, refl, refl, refl, refl, summed, refl)
                      | inr station ↦
                          rw station
                            (on_station-Does s secure repeats rate now later m line tls summed)
                    ]))
            ])
      ]
