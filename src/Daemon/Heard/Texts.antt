-- ===== src/Daemon/Heard/Texts.antt =====
-- The texts of weather stations, as the loops of `main` in src/aprs_wx.cpp hear them.
use aprs_wx.AprsIs.Coordinate.{latitude_ddm_msss, longitude_ddm_msss}
use aprs_wx.AprsIs.Coordinate.Outcomes.{coordinate}
use aprs_wx.AprsIs.Cursor.{at_start, prefix}
use aprs_wx.AprsIs.Decode.{decode, is_report}
use aprs_wx.AprsIs.Decode.Body.{ReportOutcome, completed, date_length, dated}
use aprs_wx.AprsIs.Decode.Header.{packet_text}
use aprs_wx.AprsIs.Decode.Loop.{Reads}
use aprs_wx.AprsIs.Decode.Packets.{decode_outcome}
use aprs_wx.AprsIs.Decode.Weather.{located, wind_slots}
use aprs_wx.Daemon.Handling.{Settings, station_of}
use aprs_wx.Daemon.Heard.{heard, heard_data, heard_report, heard_status}
use aprs_wx.Double.{Double}
use aprs_wx.Packet.Report.{Slots, status}
use aprs_wx.Prelude.{
  Bytes, ap, arith, drop, false, length, ok, refl, some, take, true, ℕ, ◌++◌, ◌+◌, ◌==◌, ◌>>=◌, ◌∙◌,
  ◌∷◌, ◌≡◌, ◌≤◌,
}
use aprs_wx.Std.Text.{starts_with}
use aprs_wx.Std.Text.Access.{Fits, Lacks, byte_at}
use mathlib.Core.Path.{subst}

module _ {F : Type 0} ⦃d : Double F⦄ where
  -- A text that does not start with `#` is decoded.
  heard-heard_data :
      (s : Settings F) (now c : ℕ) (line : Bytes)
      → (c == b'#') ≡ false
      → heard s now (c ∷ line) ≡ heard_data s now (c ∷ line)
  unfolding prefix starts_with
  heard-heard_data s now c line h =
      let other : (b'#' == c) ≡ false = ground arith in rw (other, h) refl

  -- The text of a packet as in `decode_outcome`, with two coordinates that decode, and with a sender
  -- that does not start with `#`, is heard as the report of the sender with its place, its symbol, and
  -- the values of the wind and of the fields that follow.
  pub heard-heard_report :
      (s : Settings F) (now c : ℕ) (sender path : Bytes) (x : ℕ) (body : Bytes) (lat lon : F)
      → (c == b'#') ≡ false
      → Lacks b'>' (c ∷ sender)
      → Lacks b':' ((c ∷ sender) ++ b'>' ∷ path)
      → Fits (packet_text (c ∷ sender) path x body)
      → is_report x ≡ true
      → date_length x + 23 ≤ length body
      → coordinate latitude_ddm_msss (drop (date_length x) body) ≡ some lat
      → coordinate longitude_ddm_msss (drop 9 (drop (date_length x) body)) ≡ some lon
      → let t = drop (date_length x) body in
        (v : Slots F) × (n : ℕ) × (heard s now (packet_text (c ∷ sender) path x body)
          ≡ ok (
              heard_report (
                completed
                  (located s.qth_latitude s.qth_longitude s.filter_radius lat lon)
                  (byte_at t 8)
                  (byte_at t 18)
                  v
                  (dated now (c ∷ sender) (take (date_length x) body)))))
        × Reads (drop 26 t) (wind_slots (drop 19 t)) v n
  heard-heard_report s now c sender path x body lat lon mark h k f report long is_lat is_lon =
      let line = packet_text (c ∷ sender) path x body in
      let t = drop (date_length x) body in
      let start = dated now (c ∷ sender) (take (date_length x) body) in
      let outcome =
        decode_outcome s.qth_latitude s.qth_longitude s.filter_radius now (c ∷ sender) path x body h
          k f report long in
      let (v, n, c', run, fields) =
        subst
          (λ o.
            ReportOutcome s.qth_latitude s.qth_longitude s.filter_radius (some lat) o
              (decode (station_of s) now (at_start line)) start t)
          is_lon
          (subst
            (λ o.
              ReportOutcome s.qth_latitude s.qth_longitude s.filter_radius o
                (coordinate longitude_ddm_msss (drop 9 t))
                (decode (station_of s) now (at_start line)) start t)
            is_lat outcome) in
      (
        v,
        n,
        heard-heard_data s now c _ mark
            ∙ ap (λ o. o >>= λ a. ok (heard_status (status a.0) a.0)) run,
        fields,
      )
