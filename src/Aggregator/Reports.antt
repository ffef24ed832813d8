-- ===== src/Aggregator/Reports.antt =====
-- The map of the reports by the name of the sender, and the removal of old ones. The `std::map` is the
-- list of its entries in the order of their keys.
pub mod Laws
pub mod Order
pub mod Same
use aprs_wx.Double.{Double, whole}
use aprs_wx.Packet.Report.{WxReport}
use aprs_wx.Prelude.{
  Bool, Bytes, List, Option, [], equal, false, if◌then◌else◌, ltb, none, some, true, ℕ, ◌&&◌, ◌==◌,
  ◌||◌, ◌∷◌,
}

-- `std::string::operator<`.
unfoldable pub less : Bytes → Bytes → Bool
less [] [] = false
less [] (y ∷ ys) = true
less (x ∷ xs) [] = false
less (x ∷ xs) (y ∷ ys) = ltb x y || (x == y && less xs ys)

abbrev pub Reports : Type 0 → Type 0
Reports F = List (Bytes × WxReport F)

module _ {F : Type 0} where
  -- `map[name] = report`.
  unfoldable pub assign : Bytes → WxReport F → Reports F → Reports F
  unfolding less
  assign name r [] = (name, r) ∷ []
  assign name r ((key, old) ∷ m) =
      if less name key
      then (name, r) ∷ (key, old) ∷ m
      else if equal name key
      then (key, r) ∷ m
      else (key, old) ∷ assign name r m

  unfoldable pub find_report : Bytes → Reports F → Option (WxReport F)
  find_report name [] = none
  find_report name ((key, r) ∷ m) = if equal name key then some r else find_report name m

module _ {F : Type 0} ⦃d : Double F⦄ where
  -- `diff.count() > 5400.`: the report is more than 90 minutes old.
  unfoldable pub is_old : ℕ → WxReport F → Bool
  is_old now r = d.lt (whole 5400) (d.elapsed now r.info.time_point)

  -- The loop of `clearAggregateData` over the map.
  unfoldable pub erase_old : ℕ → Reports F → Reports F
  unfolding is_old
  erase_old now [] = []
  erase_old now ((key, r) ∷ m) =
      if is_old now r then erase_old now m else (key, r) ∷ erase_old now m
