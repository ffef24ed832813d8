-- ===== src/Packet/Print.antt =====
-- The methods `printOn` of src/APRS_Packet.cpp.
pub mod Text
use aprs_wx.Double.{Double, Notation, default_float, fixed_point}
use aprs_wx.Packet.Items.{WeatherItem, sym_index, weather_item_list}
use aprs_wx.Packet.Position.{PacketInfo, Position}
use aprs_wx.Packet.Report.{Slots, WxReport}
use aprs_wx.Prelude.{
  Bytes, List, Option, [], codes, if◌then◌else◌, none, not, some, ℕ, ◌++◌, ◌==◌, ◌∷◌,
}

-- What a stream keeps: its text, and how it prints doubles. Its width and its flags other than those of
-- the notation are taken as they are in a new stream, and no method of the sources changes them.
pub record Stream : Type 0 where
  pub out : Bytes
  pub notation : Notation
  pub precision : ℕ

abbrev pub write_text : Bytes → Stream → Stream
write_text s strm = record strm { out = strm.out ++ s }

-- `setprecision`, and `fixed` or `defaultfloat`.
abbrev pub set_precision : ℕ → Stream → Stream
set_precision n strm = record strm { precision = n }

abbrev pub set_notation : Notation → Stream → Stream
set_notation n strm = record strm { notation = n }

-- `setprecision(0) << defaultfloat`.
abbrev pub reset : Stream → Stream
reset strm = set_notation default_float (set_precision 0 strm)

-- `APRS_Packet::printOn`.
unfoldable pub print_packet : PacketInfo → Stream → Stream
print_packet p strm = write_text (p.name ++ (b' ' ∷ p.sym_table_id ∷ p.sym_code ∷ [])) strm

module _ {F : Type 0} ⦃d : Double F⦄ where
  abbrev pub write_double : F → Stream → Stream
  write_double v strm = write_text (d.show_as strm.notation strm.precision v) strm

  -- The parts of `APRS_Position::printOn`.
  unfoldable pub print_place : Option F → Option F → Stream → Stream
  print_place (some lat) (some lon) strm = write_double lon (
      write_text (b',' ∷ []) (
        write_double lat
          (set_precision 4 (set_notation fixed_point (write_text (b' ' ∷ []) strm)))))
  print_place none lon strm = strm
  print_place (some lat) none strm = strm

  unfoldable pub print_way : Option F → Option F → Stream → Stream
  print_way (some distance) (some bearing) strm = write_text (codes " deg") (
      write_double bearing (
        set_precision 0 (
          write_text (codes " @ ")
            (write_double distance (set_precision 1 (write_text (b' ' ∷ []) strm))))))
  print_way none bearing strm = strm
  print_way (some distance) none strm = strm

  unfoldable pub print_hann : Option F → Stream → Stream
  print_hann (some hann) strm =
      write_double hann (set_precision 3 (write_text (codes " Hann value: ") strm))
  print_hann none strm = strm

  unfoldable pub print_position : PacketInfo → Position F → Stream → Stream
  unfolding print_packet print_place print_way print_hann
  print_position info p strm = reset (
      print_hann p.hann_value
        (print_way p.distance p.bearing (print_place p.lat p.lon (print_packet info strm))))

  -- The body of the loop of `APRS_WX_Report::printOn`, and the loop.
  unfoldable pub print_value : WeatherItem → Option F → Stream → Stream
  print_value it none strm = strm
  print_value it (some v) strm =
      write_text (b' ' ∷ (it.suffix ++ b' ' ∷ []))
        (write_double v (set_precision it.precision (write_text (it.prefix ++ b' ' ∷ []) strm)))

  unfoldable pub print_values : List WeatherItem → Slots F → Stream → Stream
  unfolding print_value
  print_values [] values strm = strm
  print_values (it ∷ items) values strm = print_values items values (
      if not (it.wx_flag == b'l') then print_value it (values (sym_index it.wx_sym)) strm else strm)

  unfoldable pub print_report : WxReport F → Stream → Stream
  unfolding print_position print_values
  print_report r strm = reset (
      print_values weather_item_list r.weather_value (
        set_notation fixed_point
          (write_text (b'\n' ∷ b'\t' ∷ []) (print_position r.info r.position strm))))
