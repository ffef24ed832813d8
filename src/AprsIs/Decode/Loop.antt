-- ===== src/AprsIs/Decode/Loop.antt =====
-- The weather loop of `decode` in src/APRS_IS.cpp, against a grammar of the bytes that are left.
use aprs_wx.AprsIs.Cursor.{Cursor, divided}
use aprs_wx.AprsIs.Cursor.Total.{
  advance, advance-zero, decode_char_at_index_inside, decode_double_inside,
}
use aprs_wx.AprsIs.Decode.{decode_weather_value, store_value, wx_loop}
use aprs_wx.Double.{Double, whole}
use aprs_wx.Packet.Convert.{converted}
use aprs_wx.Packet.Items.{WeatherItem, WxSym, find_flag, item_at, sym_index, weather_item_list}
use aprs_wx.Packet.Report.{Slots, WxReport}
use aprs_wx.Packet.Table.{find_flag-IsDecodable}
use aprs_wx.Prelude.{
  >>=-ok, Bool-cases, Bytes, Option-cases, [], ap, arith, drop, drop-drop, inl, inr, length, ltb,
  ltb→lt, lt→ltb, none, ok, refl, some, suc, take, zero, ℕ, ◌+◌, ◌-◌, ◌<◌, ◌>>=◌, ◌∙◌, ◌∷◌, ◌≡◌,
  ◌≤◌,
}
use aprs_wx.Std.Text.Access.{Fits, byte_at, drop_inside, drop_outside}

cursor_path : (n m : ℕ) (c : Cursor) → advance n (advance m (advance 1 c)) ≡ advance (1 + m + n) c
cursor_path n m c = ground arith

module _ {F : Type 0} ⦃d : Double F⦄ where
  -- The slots behind a field of item `it`, whose text stands at the head of `rest`.
  abbrev pub field_slots : WeatherItem → ℕ → Bytes → Slots F → Slots F
  field_slots it flag rest =
      store_value (sym_index it.wx_sym) flag
        (divided (whole it.factor) (converted (take it.digits rest)))

  -- `Reads s v v' n`: the fields at the head of `s` turn the slots `v` into `v'`, and `n` bytes are
  -- passed over, with the first byte that is no flag.
  pub data Reads : Bytes → Slots F → Slots F → ℕ → Type 0 where
    ends : {v : Slots F} → Reads [] v v 0
    stops :
        {flag : ℕ} {rest : Bytes} {v : Slots F}
        → find_flag weather_item_list flag ≡ none
        → Reads (flag ∷ rest) v v 1
    field :
        {flag : ℕ} {rest : Bytes} {v v' : Slots F} {m n : ℕ} (it : WeatherItem)
        → find_flag weather_item_list flag ≡ some it
        → Reads (drop it.digits rest) (field_slots it flag rest v) v' n
        → m ≡ 1 + it.digits + n
        → Reads (flag ∷ rest) v v' m

  -- A value of the width `n` of the symbol's entry.
  pub decode_weather_value_inside :
      (s : WxSym) (n flag : ℕ) (factor : F) (r : WxReport F) (c : Cursor)
      → (item_at (sym_index s) >>= λ x. ok x.digits) ≡ ok n
      → n ≤ 5
      → Fits c.packet
      → c.p0 ≤ length c.packet
      → decode_weather_value s flag factor r c
        ≡ ok (
          record r {
            weather_value =
                store_value
                  (sym_index s)
                  flag
                  (divided factor (converted (take n (drop c.p0 c.packet))))
                  r.weather_value;
          },
          advance n c,
        )
  unfolding decode_weather_value
  decode_weather_value_inside s n flag factor r c h b f k =
      let (x, found, width) = >>=-ok (item_at (sym_index s)) (λ x. ok x.digits) h in
      let same : x.digits ≡ n = cc width in
      rw found (rw (decode_double_inside x.digits factor c f (omega arith) k) (rw same))

  -- What the loop does from one place.
  abbrev LoopReads : ℕ → WxReport F → Cursor → Type 0
  LoopReads fuel r c =
      (v : Slots F) × (n : ℕ) × (wx_loop fuel r c
        ≡ ok (record r { weather_value = v }, advance n c))
      × Reads (drop c.p0 c.packet) r.weather_value v n

  wx_loop_field :
      (fuel : ℕ) (r : WxReport F) (c : Cursor) (it : WeatherItem)
      → Fits c.packet
      → c.p0 < length c.packet
      → find_flag weather_item_list (byte_at c.packet c.p0) ≡ some it
      → LoopReads fuel
          (record r {
            weather_value =
                field_slots it (byte_at c.packet c.p0) (drop (c.p0 + 1) c.packet) r.weather_value;
          })
          (advance it.digits (advance 1 c))
      → LoopReads (suc fuel) r c
  unfolding wx_loop
  wx_loop_field fuel r c it f k e (v, n, run, reads) =
      let flag = byte_at c.packet c.p0 in
      (
        v,
        1 + it.digits + n,
        rw (lt→ltb c.p0 (length c.packet) k) (
            rw (decode_char_at_index_inside c f (omega arith)) (
              rw e (
                rw
                  (decode_weather_value_inside it.wx_sym it.digits flag (whole it.factor) r
                    (advance 1 c) (find_flag-IsDecodable flag e).0 (find_flag-IsDecodable flag e).1
                    f (omega arith))
                  (run
                    ∙ ap (λ x. ok (record r { weather_value = v }, x))
                        (cursor_path n it.digits c))))),
        rw (drop_inside c.packet c.p0 k) (field it e (rw drop-drop reads) refl),
      )

  -- With fuel for every byte that is left the loop returns: it has stored the fields that stand at the
  -- position, up to the first byte that is no flag or to the end, and changed nothing else.
  pub wx_loop-Reads :
      (fuel : ℕ) (r : WxReport F) (c : Cursor)
      → Fits c.packet
      → length c.packet - c.p0 < fuel
      → (v : Slots F) × (n : ℕ) × (wx_loop fuel r c
          ≡ ok (record r { weather_value = v }, advance n c))
        × Reads (drop c.p0 c.packet) r.weather_value v n
  unfolding wx_loop
  wx_loop-Reads zero r c f h = absurd (omega arith)
  wx_loop-Reads (suc fuel) r c f h = elim (Bool-cases (ltb c.p0 (length c.packet))) [
    | inr past ↦ (
      r.weather_value,
      0,
      rw past (rw (advance-zero c)),
      rw (drop_outside c.packet c.p0 (ground arith)) ends,
    )
    | inl inside ↦
        let k = ltb→lt c.p0 (length c.packet) inside in
        let flag = byte_at c.packet c.p0 in
        elim (Option-cases (find_flag weather_item_list flag)) [
          | inl e ↦ (
            r.weather_value,
            1,
            rw inside (rw (decode_char_at_index_inside c f (omega arith)) (rw e)),
            rw (drop_inside c.packet c.p0 k) (stops e),
          )
          | inr (it, e) ↦ wx_loop_field fuel r c it f k e (wx_loop-Reads fuel _ _ f (omega arith))
        ]
  ]
