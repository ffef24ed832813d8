-- ===== src/Daemon/Ending.antt =====
-- Which packets end the inner loop of `main` in src/aprs_wx.cpp.
use aprs_wx.AprsIs.Cursor.{Cursor, at_start, char_at_index, prefix}
use aprs_wx.AprsIs.Decode.{decode}
use aprs_wx.Daemon.Handling.{
  Daemon, Handled, Settings, as_report, goes_on, on_counted, on_data, on_identification, on_packet,
  on_report, on_station, on_status, push_if, returns_1, station_of, is_empty, with_report,
}
use aprs_wx.Aggregator.Sums.{aggregate_data}
use aprs_wx.Double.{Double}
use aprs_wx.Packet.Report.{Packet, status}
use aprs_wx.Packet.Status.{PacketStatus}
use aprs_wx.Prelude.{
  Bool-cases, Bytes, Ensures, Ensures-next, Outcome, [], codes, equal, inl, inr, not, ok, refl,
  throws, true, undefined, exits, unfinished, value, ℕ, ◌&&◌, ◌==◌, ◌>>=◌, ◌≡◌, ◌⊎◌,
}

-- What follows a call may rest on the value that it returns.
Ensures-returned :
    {A B : Type 0} (Q : B → Type 0) (m : Outcome A) (f : A → Outcome B)
    → ((a : A) → m ≡ ok a → Ensures Q (f a))
    → Ensures Q (m >>= f)
Ensures-returned Q (ok a) f h = h a refl
Ensures-returned Q (throws e) f h = tt
Ensures-returned Q undefined f h = tt
Ensures-returned Q exits f h = tt
Ensures-returned Q unfinished f h = tt

module _ {F : Type 0} ⦃d : Double F⦄ (s : Settings F) (now : ℕ) (line : Bytes) where
  -- `decode` gives the text the status `DecodingError`.
  abbrev pub IsBroken : Type 0
  IsBroken =
      (a : Packet F × Cursor) × (decode (station_of s) now (at_start line) ≡ ok a)
      × (status a.0 ≡ PacketStatus.decoding_error)

  abbrev pub Continues : Handled F → Type 0
  Continues h = (h.control ≡ goes_on) ⊎ ((h.control ≡ returns_1) × IsBroken)

  on_report-Continues :
      (later : ℕ) (m : Daemon F) (p : Packet F) → Ensures Continues (on_report s later m p)
  unfolding on_report
  on_report-Continues later m p = Ensures-next Continues (as_report p) _ λ r.
      Ensures-next Continues (aggregate_data later (with_report r m.aggregator)) _
        λ a. Ensures-next Continues (push_if true s.database s.influx_tls a) _ λ posts. inl refl

  on_status-Continues :
      (later : ℕ) (m : Daemon F) (a : Packet F × Cursor) (st : PacketStatus)
      → decode (station_of s) now (at_start line) ≡ ok a
      → status a.0 ≡ st
      → Ensures Continues (on_status s later m a.0 st)
  unfolding on_status
  on_status-Continues later m a PacketStatus.wx_packet run e = on_report-Continues later m a.0
  on_status-Continues later m a PacketStatus.decoding_error run e = inr (refl, (a, run, e))
  on_status-Continues later m a PacketStatus.none run e = inl refl
  on_status-Continues later m a PacketStatus.aprs_packet run e = inl refl
  on_status-Continues later m a PacketStatus.position_packet run e = inl refl
  on_status-Continues later m a PacketStatus.error_latitude run e = inl refl
  on_status-Continues later m a PacketStatus.error_longitude run e = inl refl

  on_station-Continues :
      (later : ℕ) (m : Daemon F) → Ensures Continues (on_station s now later m (at_start line))
  unfolding on_station
  on_station-Continues later m =
      Ensures-returned Continues (decode (station_of s) now (at_start line)) _
        (λ a run. on_status-Continues later m a (status a.0) run refl)

  on_data-Continues :
      (later : ℕ) (m : Daemon F) → Ensures Continues (on_data s now later m (at_start line))
  unfolding on_data
  on_data-Continues later m = Ensures-next Continues (char_at_index (at_start line)) _ λ first.
      elim (Bool-cases (not (first == b'#'))) [
        | inl station ↦ rw station (on_station-Continues later m)
        | inr other ↦ rw other (inl refl)
      ]

  on_identification-Continues : (m : Daemon F) → Ensures Continues (on_identification s m)
  unfolding on_identification
  on_identification-Continues m = Ensures-next Continues (value s.influx_repeats) _ λ repeats.
      Ensures-next Continues
        (push_if (repeats && not (is_empty m.aggregator.reports)) s.database s.influx_tls
          m.aggregator)
        _ λ posts. inl refl

  -- One round goes on, or returns 1 on a text with the status `DecodingError`.
  pub on_packet-Continues :
      (later : ℕ) (m : Daemon F) → Ensures Continues (on_packet s now later m (at_start line))
  unfolding on_packet on_counted
  on_packet-Continues later m = elim (Bool-cases (not (equal line []))) [
    | inr nothing ↦
        rw nothing (Ensures-next Continues (value s.server_cycle_rate) _ λ rate. inl refl)
    | inl something ↦
        rw something (elim (Bool-cases (not (prefix (codes "# aprsc") (at_start line)))) [
          | inl data_ ↦ rw data_ (on_data-Continues later _)
          | inr server ↦ rw server (on_identification-Continues _)
        ])
  ]
