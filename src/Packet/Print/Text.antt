-- ===== src/Packet/Print/Text.antt =====
-- The text of a report for a reader, of src/APRS_Packet.cpp.
use aprs_wx.Double.{Double, Notation, default_float, fixed_point}
use aprs_wx.Packet.Items.{WeatherItem, sym_index, weather_item_list}
use aprs_wx.Packet.Position.{PacketInfo, Position}
use aprs_wx.Packet.Print.{
  Stream, print_hann, print_packet, print_place, print_position, print_report, print_value,
  print_values, print_way, set_notation, write_text,
}
use aprs_wx.Packet.Report.{Slots, WxReport}
use aprs_wx.Prelude.{
  Bool, Bool-cases, Bytes, List, Option, [], ap, codes, if◌then◌else◌, inl, inr, none, not, refl,
  some, ◌++◌, ◌==◌, ◌∙◌, ◌∷◌, ◌≡◌,
}
use mathlib.Core.List.{append-nil, append_assoc}

module _ {F : Type 0} ⦃d : Double F⦄ where
  -- The place with four decimals; the rest is in the notation behind it.
  abbrev pub place_text : Option F → Option F → Bytes
  place_text (some lat) (some lon) =
      b' ' ∷ (d.show_as fixed_point 4 lat ++ (b',' ∷ d.show_as fixed_point 4 lon))
  place_text none lon = []
  place_text (some lat) none = []

  abbrev pub notation_behind : Option F → Option F → Notation → Notation
  notation_behind (some lat) (some lon) n = fixed_point
  notation_behind none lon n = n
  notation_behind (some lat) none n = n

  abbrev pub way_text : Notation → Option F → Option F → Bytes
  way_text n (some distance) (some bearing) =
      b' ' ∷ (d.show_as n 1 distance ++ (codes " @ " ++ (d.show_as n 0 bearing ++ codes " deg")))
  way_text n none bearing = []
  way_text n (some distance) none = []

  abbrev pub hann_text : Notation → Option F → Bytes
  hann_text n none = []
  hann_text n (some hann) = codes " Hann value: " ++ d.show_as n 3 hann

  -- A value with its prefix, its precision and its suffix.
  abbrev pub value_text : WeatherItem → Option F → Bytes
  value_text it none = []
  value_text it (some v) =
      it.prefix
      ++ (b' ' ∷ (d.show_as fixed_point it.precision v ++ (b' ' ∷ (it.suffix ++ b' ' ∷ []))))

  abbrev pub values_text : List WeatherItem → Slots F → Bytes
  values_text [] values = []
  values_text (it ∷ items) values =
      (if it.wx_flag == b'l' then [] else value_text it (values (sym_index it.wx_sym)))
      ++ values_text items values

  abbrev pub position_text : Notation → PacketInfo → Position F → Bytes
  position_text n info p =
      let n' = notation_behind p.lat p.lon n in
      info.name
      ++ (b' '
          ∷ info.sym_table_id
          ∷ info.sym_code
          ∷ (place_text p.lat p.lon
              ++ (way_text n' p.distance p.bearing ++ hann_text n' p.hann_value)))

  abbrev pub report_text : Notation → WxReport F → Bytes
  report_text n r =
      position_text n r.info r.position
      ++ (b'\n' ∷ b'\t' ∷ values_text weather_item_list r.weather_value)

  -- What the parts do to the text and to the notation of a stream.
  place_out :
      (lat lon : Option F) (strm : Stream)
      → ((print_place lat lon strm).out ≡ strm.out ++ place_text lat lon)
        × ((print_place lat lon strm).notation ≡ notation_behind lat lon strm.notation)
  unfolding print_place
  place_out (some lat) (some lon) strm = (simp append_assoc, refl)
  place_out none lon strm = (rw (append-nil strm.out), refl)
  place_out (some lat) none strm = (rw (append-nil strm.out), refl)

  way_out :
      (distance bearing : Option F) (strm : Stream)
      → ((print_way distance bearing strm).out
          ≡ strm.out ++ way_text strm.notation distance bearing)
        × ((print_way distance bearing strm).notation ≡ strm.notation)
  unfolding print_way
  way_out (some distance) (some bearing) strm = (simp append_assoc, refl)
  way_out none bearing strm = (rw (append-nil strm.out), refl)
  way_out (some distance) none strm = (rw (append-nil strm.out), refl)

  hann_out :
      (hann : Option F) (strm : Stream)
      → (print_hann hann strm).out ≡ strm.out ++ hann_text strm.notation hann
  unfolding print_hann
  hann_out none strm = rw (append-nil strm.out)
  hann_out (some hann) strm = simp append_assoc

  value_out :
      (it : WeatherItem) (v : Option F) (strm : Stream)
      → strm.notation ≡ fixed_point
      → ((print_value it v strm).out ≡ strm.out ++ value_text it v)
        × ((print_value it v strm).notation ≡ fixed_point)
  unfolding print_value
  value_out it none strm e = (rw (append-nil strm.out), e)
  value_out it (some v) strm e = (rw e (simp append_assoc), e)

  values_out :
      (items : List WeatherItem) (values : Slots F) (strm : Stream)
      → strm.notation ≡ fixed_point
      → (print_values items values strm).out ≡ strm.out ++ values_text items values
  unfolding print_values
  values_out [] values strm e = rw (append-nil strm.out)
  values_out (it ∷ items) values strm e =
      let v = values (sym_index it.wx_sym) in
      let behind : Bool → Bytes =
        λ b. (print_values items values (if not b then print_value it v strm else strm)).out in
      elim (Bool-cases (it.wx_flag == b'l')) [
        | inl high ↦ ap behind high ∙ values_out items values strm e ∙ rw high refl
        | inr low ↦
            let (first, still) = value_out it v strm e in
            ap behind low
            ∙ values_out items values (print_value it v strm) still
            ∙ rw (low, first) (simp append_assoc)
      ]

  position_out :
      (info : PacketInfo) (p : Position F) (strm : Stream)
      → (print_position info p strm).out ≡ strm.out ++ position_text strm.notation info p
  unfolding print_position print_packet
  position_out info p strm =
      let s1 = print_packet info strm in
      let s2 = print_place p.lat p.lon s1 in
      let s3 = print_way p.distance p.bearing s2 in
      let (a, n) = place_out p.lat p.lon s1 in
      let (b, n') = way_out p.distance p.bearing s2 in
      hann_out p.hann_value s3 ∙ rw (n', b) (rw (n, a) (simp append_assoc))

  -- `printOn` of a report, whatever the format of the stream, adds the sender with its symbol, the
  -- coordinates, the distance with the bearing, and the weight, each if it is known, and then each
  -- value of the table with its precision. The notation of the stream counts only for the distance,
  -- the bearing and the weight of a report without coordinates. It leaves the stream in the default
  -- notation with the precision 0, whatever they were.
  pub print_report-report_text :
      (r : WxReport F) (strm : Stream)
      → print_report r strm ≡ (record {
        out = strm.out ++ report_text strm.notation r;
        notation = default_float;
        precision = 0;
      })
  unfolding print_report
  print_report-report_text r strm =
      let s1 = print_position r.info r.position strm in
      let s2 = set_notation fixed_point (write_text (b'\n' ∷ b'\t' ∷ []) s1) in
      ap (λ out. record { out = out; notation = default_float; precision = 0 })
        (values_out weather_item_list r.weather_value s2 refl
          ∙ rw (position_out r.info r.position strm) (simp append_assoc))
