-- ===== src/Aggregator/Reports/Order.antt =====
-- The order of the keys in the map of src/WeatherAggregator.h.
use aprs_wx.Aggregator.Reports.{Reports, assign, erase_old, find_report, is_old, less}
use aprs_wx.Aggregator.Reports.Laws.{find_report-assign}
use aprs_wx.Double.{Double}
use aprs_wx.Packet.Report.{WxReport}
use aprs_wx.Prelude.{
  All, Bool-cases, Bytes, Option, [], ap, arith, equal, equal_iff, false, if◌then◌else◌, inl, inr,
  none, refl, some, true, ℕ, ◌∙◌, ◌∷◌, ◌≡◌,
}

less_trans : (a b c : Bytes) → less a b ≡ true → less b c ≡ true → less a c ≡ true
unfolding less
less_trans [] [] [] h k = cc
less_trans [] (y ∷ ys) [] h k = cc
less_trans [] b (z ∷ zs) h k = refl
less_trans (x ∷ xs) [] c h k = cc
less_trans (x ∷ xs) (y ∷ ys) [] h k = cc
less_trans (x ∷ xs) (y ∷ ys) (z ∷ zs) h k = ground (arith, less_trans xs ys zs)

pub less-connex : (a b : Bytes) → less a b ≡ false → equal a b ≡ false → less b a ≡ true
unfolding less
less-connex [] [] h k = cc
less-connex [] (y ∷ ys) h k = cc
less-connex (x ∷ xs) [] h k = refl
less-connex (x ∷ xs) (y ∷ ys) h k = ground (arith, less-connex xs ys)

less_irrefl : (a : Bytes) → less a a ≡ false
unfolding less
less_irrefl [] = refl
less_irrefl (x ∷ xs) = ground (arith, less_irrefl xs)

module _ {F : Type 0} where
  -- All keys of the map are above `key`.
  abbrev pub Above : Bytes → Reports F → Type 0
  Above key = All (λ e. less key e.0 ≡ true)

  -- The keys ascend, so each sender has one report.
  abbrev pub IsSorted : Reports F → Type 0
  IsSorted [] = Unit {0}
  IsSorted ((key, r) ∷ m) = Above key m × IsSorted m

  pub Above-below :
      (low key : Bytes) (m : Reports F) → less low key ≡ true → Above key m → Above low m
  Above-below low key [] h a = tt
  Above-below low key ((k, r) ∷ m) h (a, above) =
      (less_trans low key k h a, Above-below low key m h above)

  assign-Above :
      (low name : Bytes) (r : WxReport F) (m : Reports F)
      → less low name ≡ true
      → Above low m
      → Above low (assign name r m)
  unfolding assign
  assign-Above low name r [] h a = (h, tt)
  assign-Above low name r ((key, old) ∷ m) h (a, above) = elim (Bool-cases (less name key)) [
    | inl before ↦ rw before (h, (a, above))
    | inr after ↦ rw after (elim (Bool-cases (equal name key)) [
      | inl same ↦ rw same (a, above)
      | inr other ↦ rw other (a, assign-Above low name r m h above)
    ])
  ]

  pub assign-IsSorted :
      (name : Bytes) (r : WxReport F) (m : Reports F) → IsSorted m → IsSorted (assign name r m)
  unfolding assign
  assign-IsSorted name r [] h = (tt, tt)
  assign-IsSorted name r ((key, old) ∷ m) (a, s) = elim (Bool-cases (less name key)) [
    | inl before ↦ rw before ((before, Above-below name key m before a), (a, s))
    | inr after ↦ rw after (elim (Bool-cases (equal name key)) [
      | inl same ↦ rw same (a, s)
      | inr other ↦ rw other (
        assign-Above key name r m (less-connex name key after other) a,
        assign-IsSorted name r m s,
      )
    ])
  ]

  pub find_report-Above :
      (key name : Bytes) (m : Reports F)
      → Above key m
      → equal name key ≡ true
      → find_report name m ≡ none
  unfolding find_report
  find_report-Above key name [] a h = refl
  find_report-Above key name ((k, r) ∷ m) (a, above) h =
      let same : name ≡ key = (equal_iff name key).0 h in
      elim (Bool-cases (equal name k)) [
        | inr other ↦ rw other (find_report-Above key name m above h)
        | inl also ↦
            let e : name ≡ k = (equal_iff name k).0 also in cc (less_irrefl key, a, same, e)
      ]

module _ {F : Type 0} ⦃d : Double F⦄ where
  -- The report, if it is not too old.
  abbrev pub young : ℕ → Option (WxReport F) → Option (WxReport F)
  young now none = none
  young now (some r) = if is_old now r then none else some r

  erase_old-Above :
      (now : ℕ) (key : Bytes) (m : Reports F) → Above key m → Above key (erase_old now m)
  unfolding erase_old
  erase_old-Above now key [] a = tt
  erase_old-Above now key ((k, r) ∷ m) (a, above) = elim (Bool-cases (is_old now r)) [
    | inl old ↦ rw old (erase_old-Above now key m above)
    | inr fresh ↦ rw fresh (a, erase_old-Above now key m above)
  ]

  erase_old-IsSorted : (now : ℕ) (m : Reports F) → IsSorted m → IsSorted (erase_old now m)
  unfolding erase_old
  erase_old-IsSorted now [] h = tt
  erase_old-IsSorted now ((key, r) ∷ m) (a, s) = elim (Bool-cases (is_old now r)) [
    | inl old ↦ rw old (erase_old-IsSorted now m s)
    | inr fresh ↦ rw fresh (erase_old-Above now key m a, erase_old-IsSorted now m s)
  ]

  find_report-erase_old :
      (now : ℕ) (name : Bytes) (m : Reports F)
      → IsSorted m
      → find_report name (erase_old now m) ≡ young now (find_report name m)
  unfolding find_report erase_old
  find_report-erase_old now name [] h = refl
  find_report-erase_old now name ((key, r) ∷ m) (a, s) =
      let rest = find_report-erase_old now name m s in
      elim (Bool-cases (is_old now r)) [
        | inr fresh ↦ rw fresh (elim (Bool-cases (equal name key)) [
          | inl same ↦ rw same (rw fresh)
          | inr other ↦ rw other rest
        ])
        | inl old ↦ rw old (elim (Bool-cases (equal name key)) [
          | inl same ↦ rw same (rest ∙ rw (find_report-Above key name m a same) (rw old))
          | inr other ↦ rw other rest
        ])
      ]

  -- On reports whose keys ascend, putting in a report by `map[name] = r` and removing the old ones, as
  -- `main` and `aggregateData` do, leaves the keys ascending; a search behind it finds, for `name`, the
  -- new report, and for another name the report that it found before, in both cases if it is not too
  -- old.
  pub erase_old-assign :
      (now : ℕ) (name other : Bytes) (r : WxReport F) (m : Reports F)
      → IsSorted m
      → IsSorted (erase_old now (assign name r m))
        × (find_report other (erase_old now (assign name r m))
            ≡ young now (if equal other name then some r else find_report other m))
  erase_old-assign now name other r m h =
      let sorted = assign-IsSorted name r m h in
      (
        erase_old-IsSorted now (assign name r m) sorted,
        find_report-erase_old now other (assign name r m) sorted
            ∙ ap (young now) (find_report-assign name other r m),
      )
