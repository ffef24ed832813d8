-- ===== src/Tests/Serving.antt =====
-- The theorems of `getPacket` and of the loop of `main`.
use aprs_wx.Aggregator.Reports.{assign}
use aprs_wx.AprsIs.Cursor.{at_start}
use aprs_wx.AprsIs.Decode.{Station, decode}
use aprs_wx.AprsIs.Decode.Header.{packet_text}
use aprs_wx.AprsIs.Decode.Packets.{decode_no_colon}
use aprs_wx.Daemon.Handling.{Daemon, Settings, on_packet, on_report}
use aprs_wx.Daemon.Safety.{FailsLike, Serves, on_packet-Serves}
use aprs_wx.Daemon.Senders.{Agree, both_reports, both_reports-Agree}
use aprs_wx.Daemon.Session.{Clock, Feeds, Finishes, enough, feed, inner_loop, inner_loop-Finishes}
use aprs_wx.Double.Formula.{Formula, formula_double}
use aprs_wx.Packet.Report.{WxReport, wx}
use aprs_wx.Prelude.{
  ℕ, Bytes, List, [], arith, codes, false, ok, refl, some, true, unfinished, ◌++◌, ◌+◌, ◌∷◌, ◌≡◌,
  ◌⊎◌,
}
use aprs_wx.Socket.Receive.{Event, arrives, end_of_file, get_packet, silence}
use aprs_wx.Socket.Receive.Lines.{
  byte, get_packet-Delivers, get_packet_end_of_file, get_packet_silence, last, next, pause, rounds,
  start,
}
use aprs_wx.Tests.Samples.{
  store, call, gathered, home, home_lat, home_lon, lacks-Lacks, range, route, weather, weighed,
  weighed-HasWeight,
}

abbrev pub arrivals : Bytes → List Event
arrivals [] = []
arrivals (b ∷ s) = arrives b ∷ arrivals s

get_packet-Delivers_example :
    get_packet (arrives b'a' ∷ silence ∷ arrives b'\r' ∷ arrives b'\n' ∷ silence ∷ []) 59
    ≡ ok (record { packet = codes "a\n"; wait_time = 0; later = silence ∷ [] })
get_packet-Delivers_example =
    get_packet-Delivers (silence ∷ [])
      (byte (omega arith) (pause (omega arith) (byte (omega arith) last)))

get_packet_silence_example :
    get_packet (arrives b'a' ∷ (rounds 61 silence ++ arrives b'b' ∷ [])) 0
    ≡ ok (record { packet = []; wait_time = 61; later = arrives b'b' ∷ [] })
get_packet_silence_example = get_packet_silence (arrives b'b' ∷ []) (next (omega arith) start)

get_packet_end_of_file_example : get_packet (arrives b'a' ∷ rounds 500 end_of_file) 0 ≡ unfinished
get_packet_end_of_file_example = get_packet_end_of_file 500 b'a' 0 (omega arith)

abbrev pub settings : Settings Formula
settings = record {
  qth_latitude = home_lat;
  qth_longitude = home_lon;
  filter_radius = range;
  database = some store;
  influx_tls = some false;
  influx_repeats = some true;
  server_cycle_rate = some 4;
}

abbrev pub running : Daemon Formula
running = record { packet_count = 3; aggregator = gathered }

on_packet-Serves_example :
    Serves 4 (on_packet settings 8 9 running (at_start (packet_text call route b'!' weather)))
    ⊎ FailsLike
        (decode home 8 (at_start (packet_text call route b'!' weather)))
        (on_packet settings 8 9 running (at_start (packet_text call route b'!' weather)))
unfolding assign
on_packet-Serves_example =
    on_packet-Serves settings 4 8 9 running (packet_text call route b'!' weather) (refl, refl, refl)
      ((weighed-HasWeight, tt), λ i. refl)

abbrev pub clock : Clock
clock = record { decoded_at = λ n. n + n; aggregated_at = λ n. n + n + 1 }

-- The identification of a server.
abbrev pub identity : Bytes
identity = codes "# aprsc>1\n"

pub identity-Feeds : (st : Station Formula) → Feeds st 1 0 (arrivals identity)
unfolding get_packet
identity-Feeds st =
    feed (record { packet = identity; wait_time = 0; later = [] }) refl
      (λ now. (
        _,
        decode_no_colon st now b'#' (codes " aprsc") (codes "1\n")
            (lacks-Lacks b'>' (codes "# aprsc") refl) (lacks-Lacks b':' identity refl) (omega arith)
            refl,
      ))
      enough

inner_loop-Finishes_example :
    Finishes settings 4 0
      (arrivals identity)
      (inner_loop 2 settings clock running 0 (arrivals identity))
unfolding assign
inner_loop-Finishes_example =
    inner_loop-Finishes 1 settings 4 clock running 0 (arrivals identity) (refl, refl, refl)
      ((weighed-HasWeight, tt), λ i. refl) (omega arith) (identity-Feeds home)

-- Reports of two senders, and an earlier one of the first.
abbrev sent_by : Bytes → ℕ → WxReport Formula
sent_by name time = record weighed {
  info = record (weighed.info) { name = name; time_point = time };
}

both_reports-Agree_example :
    Agree
      (both_reports settings 9 running (sent_by (codes "A") 8) (sent_by (codes "B") 8))
      (both_reports settings 9 running (sent_by (codes "B") 8) (sent_by (codes "A") 8))
    × Agree
        (both_reports settings 9 running (sent_by (codes "A") 7) (sent_by (codes "A") 8))
        (on_report settings 9 running (wx (sent_by (codes "A") 8)))
unfolding assign
both_reports-Agree_example =
    both_reports-Agree settings 9 store false refl refl running (sent_by (codes "A") 8)
      (sent_by (codes "B") 8) (sent_by (codes "A") 7) ((weighed-HasWeight, tt), λ i. refl) (tt, tt)
      weighed-HasWeight weighed-HasWeight weighed-HasWeight refl refl
