-- ===== src/Packet/Table.antt =====
-- `WeatherItemList` of src/APRS_Packet.h: the entry of a symbol, and the search by a flag.
use aprs_wx.Packet.Items.{WeatherItem, find_flag, item_at, sym_index, weather_item_list}
use aprs_wx.Prelude.{
  All, Bool-cases, List, [], arith, inl, inr, ok, some, ℕ, ◌==◌, ◌>>=◌, ◌∷◌, ◌≡◌, ◌≤◌,
}
use mathlib.Core.Option.{some-injective}

-- The entry that the symbol of `it` names exists, and is as wide as `it`; the width is that of a field
-- of a report.
abbrev pub IsDecodable : WeatherItem → Type 0
IsDecodable it =
    ((item_at (sym_index it.wx_sym) >>= λ x. ok x.digits) ≡ ok it.digits) × (it.digits ≤ 5)

pub weather_item_list-IsDecodable : All IsDecodable weather_item_list
unfolding item_at
weather_item_list-IsDecodable = ground arith

pub find_flag-All :
    (P : WeatherItem → Type 0) (xs : List WeatherItem) (flag : ℕ) {it : WeatherItem}
    → All P xs
    → find_flag xs flag ≡ some it
    → P it
unfolding find_flag
find_flag-All P [] flag h e = cc
find_flag-All P (x ∷ xs) flag {it} h e = elim (Bool-cases (x.wx_flag == flag)) [
  | inl here ↦ let same : x ≡ it = some-injective _ _ (rw (here, find_flag) at e) in rw same at h.0
  | inr there ↦ find_flag-All P xs flag h.1 (rw (there, find_flag) at e)
]

pub find_flag-wx_flag :
    (xs : List WeatherItem) (flag : ℕ) {it : WeatherItem}
    → find_flag xs flag ≡ some it
    → it.wx_flag ≡ flag
unfolding find_flag
find_flag-wx_flag [] flag e = cc
find_flag-wx_flag (x ∷ xs) flag {it} e = ground (arith, find_flag-wx_flag xs flag {it = it})

pub find_flag-IsDecodable :
    (flag : ℕ) {it : WeatherItem} → find_flag weather_item_list flag ≡ some it → IsDecodable it
find_flag-IsDecodable flag e =
    find_flag-All IsDecodable weather_item_list flag weather_item_list-IsDecodable e
