-- ===== src/Tests/Decoding.antt =====
-- The theorems of `decode` on a weather report.
use aprs_wx.AprsIs.Coordinate.{decode_coordinate, latitude_ddm_msss, longitude_ddm_msss}
use aprs_wx.AprsIs.Coordinate.Outcomes.{coordinate, decode_coordinate_outcomes}
use aprs_wx.AprsIs.Cursor.{Cursor, at_start}
use aprs_wx.AprsIs.Cursor.Total.{advance}
use aprs_wx.AprsIs.Decode.{decode, wx_loop}
use aprs_wx.AprsIs.Decode.Body.{ReportOutcome, dated}
use aprs_wx.AprsIs.Decode.Contract.{IsDecoded, decode-IsDecoded}
use aprs_wx.AprsIs.Decode.Header.{packet_text}
use aprs_wx.AprsIs.Decode.Loop.{Reads, wx_loop-Reads}
use aprs_wx.AprsIs.Decode.Packets.{decode_no_colon, decode_outcome, decode_truncated}
use aprs_wx.Double.Formula.{Formula, formula_double}
use aprs_wx.Packet.Position.{new_packet}
use aprs_wx.Double.{default_float}
use aprs_wx.Packet.Print.{Stream, print_report}
use aprs_wx.Packet.Print.Text.{print_report-report_text, report_text}
use aprs_wx.Packet.Report.{Slots, new_report, no_values, plain}
use aprs_wx.Packet.Status.{PacketStatus}
use aprs_wx.Prelude.{Ensures, [], arith, codes, drop, ok, refl, undefined, ℕ, ◌++◌, ◌≡◌}
use aprs_wx.Tests.Samples.{
  call, call-Lacks, header, header-Lacks, home, home_lat, home_lon, range, route, weather, weighed,
}

decode_outcome_example :
    ReportOutcome home_lat home_lon range
      (coordinate latitude_ddm_msss weather)
      (coordinate longitude_ddm_msss (drop 9 weather))
      (decode home 7 (at_start (packet_text call route b'!' weather)))
      (dated 7 call [])
      weather
decode_outcome_example =
    decode_outcome home_lat home_lon range 7 call route b'!' weather call-Lacks header-Lacks
      (omega arith) refl (omega arith)

decode_truncated_example :
    decode home 7 (at_start (packet_text call route b'!' (codes "4523"))) ≡ undefined
decode_truncated_example =
    decode_truncated home 7 call route b'!' (codes "4523") call-Lacks header-Lacks (omega arith)
      refl (omega arith)

decode_no_colon_example :
    decode home 7 (at_start header)
    ≡ ok (
      plain (record (new_packet 7) { packet_status = PacketStatus.decoding_error }),
      record { packet = header; p0 = 1; p1 = 6 },
    )
decode_no_colon_example =
    decode_no_colon home 7 b'V' (codes "E3YSH") route call-Lacks header-Lacks (omega arith) refl

decode-IsDecoded_example :
    Ensures
      (λ a. IsDecoded home_lat home_lon range a.0)
      (decode home 7 (at_start (packet_text call route b'!' weather)))
decode-IsDecoded_example =
    decode-IsDecoded home_lat home_lon range 7 (at_start (packet_text call route b'!' weather))

abbrev fields : Cursor
fields = record { packet = codes "g010t068x\n"; p0 = 0; p1 = 0 }

wx_loop-Reads_example :
    (v : Slots Formula) × (n : ℕ) × (wx_loop 11 (new_report 7) fields
      ≡ ok (record (new_report 7) { weather_value = v }, advance n fields))
    × Reads (codes "g010t068x\n") no_values v n
wx_loop-Reads_example = wx_loop-Reads 11 (new_report 7) fields (omega arith) (omega arith)

abbrev longitude_text : Cursor
longitude_text = record { packet = codes "/07541.25"; p0 = 1; p1 = 0 }

decode_coordinate_outcomes_example :
    decode_coordinate {F = Formula} longitude_ddm_msss longitude_text
    ≡ ok (coordinate longitude_ddm_msss (codes "07541.25"), record longitude_text { p0 = 10 })
decode_coordinate_outcomes_example =
    decode_coordinate_outcomes longitude_ddm_msss longitude_text (omega arith) (omega arith)

-- A stream in the default format with something on it.
abbrev console : Stream
console = record { out = codes "> "; notation = default_float; precision = 6 }

print_report-report_text_example : print_report weighed console ≡ (record {
  out = codes "> " ++ report_text default_float weighed;
  notation = default_float;
  precision = 0;
})
print_report-report_text_example = print_report-report_text weighed console
