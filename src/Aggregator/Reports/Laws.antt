-- ===== src/Aggregator/Reports/Laws.antt =====
-- The map of the reports that `WeatherAggregator` of src/WeatherAggregator.h is.
use aprs_wx.Aggregator.Reports.{Reports, assign, erase_old, find_report, is_old, less}
use aprs_wx.Double.{Double}
use aprs_wx.Packet.Report.{WxReport}
use aprs_wx.Prelude.{
  All, Bool-cases, Bytes, [], arith, equal, equal_iff, if◌then◌else◌, inl, inr, refl, some, ℕ, ◌∷◌,
  ◌≡◌,
}

module _ {F : Type 0} where
  -- A property of all reports is kept by an assignment of a report that has it.
  pub assign-All :
      (P : WxReport F → Type 0) (name : Bytes) (r : WxReport F) (m : Reports F)
      → P r
      → All (λ e. P e.1) m
      → All (λ e. P e.1) (assign name r m)
  unfolding assign
  assign-All P name r [] p h = (p, tt)
  assign-All P name r ((key, old) ∷ m) p (o, h) = elim (Bool-cases (less name key)) [
    | inl before ↦ rw before (p, (o, h))
    | inr after ↦ rw after (elim (Bool-cases (equal name key)) [
      | inl same ↦ rw same (p, h)
      | inr other ↦ rw other (o, assign-All P name r m p h)
    ])
  ]

  -- Behind `map[name] = r`, a search for `name` finds `r`, and a search for any other name finds what
  -- it found before.
  pub find_report-assign :
      (name other : Bytes) (r : WxReport F) (m : Reports F)
      → find_report other (assign name r m)
        ≡ (if equal other name then some r else find_report other m)
  unfolding find_report assign
  find_report-assign name other r [] = refl
  find_report-assign name other r ((key, old) ∷ m) = elim (Bool-cases (less name key)) [
    | inl before ↦ rw before
    | inr after ↦ rw after (elim (Bool-cases (equal name key)) [
      | inl same ↦ let e : name ≡ key = (equal_iff name key).0 same in rw same (rw e (ground arith))
      | inr different ↦ rw different (
          ground (
            arith,
            equal_iff other key,
            equal_iff other name,
            equal_iff name key,
            find_report-assign name other r m,
          ))
    ])
  ]

module _ {F : Type 0} ⦃d : Double F⦄ where
  pub erase_old-All :
      (P : WxReport F → Type 0) (now : ℕ) (m : Reports F)
      → All (λ e. P e.1) m
      → All (λ e. P e.1) (erase_old now m)
  unfolding erase_old
  erase_old-All P now [] h = tt
  erase_old-All P now ((key, r) ∷ m) (p, h) = elim (Bool-cases (is_old now r)) [
    | inl old ↦ rw old (erase_old-All P now m h)
    | inr young ↦ rw young (p, erase_old-All P now m h)
  ]
