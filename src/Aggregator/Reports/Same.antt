-- ===== src/Aggregator/Reports/Same.antt =====
-- The map of src/WeatherAggregator.h as the reports that it holds, without the way they came in.
use aprs_wx.Aggregator.Reports.{Reports, find_report, less}
use aprs_wx.Aggregator.Reports.Order.{Above, Above-below, IsSorted, find_report-Above, less-connex}
use aprs_wx.Packet.Report.{WxReport}
use aprs_wx.Prelude.{
  Bool, Bool-cases, Bytes, [], equal, equal_iff, false, if◌then◌else◌, inl, inr, none, refl, some,
  sym, true, ◌∙◌, ◌∷◌, ◌≡◌,
}
use mathlib.Core.Path.{ap₂, subst}

equal_refl : (a : Bytes) → equal a a ≡ true
equal_refl a = (equal_iff a a).1 refl

pub test_twice :
    {A : Type 0} (b : Bool) (x y z : A)
    → (if b then x else if b then y else z) ≡ (if b then x else z)
test_twice true x y z = refl
test_twice false x y z = refl

-- Of two names that are apart, a key equals one at most.
pub swap_tests :
    {A : Type 0} (name other key : Bytes)
    → equal name other ≡ false
    → (x y z : A)
    → (if equal key name then x else if equal key other then y else z)
      ≡ (if equal key other then y else if equal key name then x else z)
swap_tests name other key apart x y z = elim (Bool-cases (equal key name)) [
  | inr far ↦ rw far
  | inl near ↦ elim (Bool-cases (equal key other)) [
    | inr far ↦ rw (near, far)
    | inl also ↦
        let e : key ≡ name = (equal_iff key name).0 near in
        let e' : key ≡ other = (equal_iff key other).0 also in
        cc ((equal_iff name other).1 (sym e ∙ e'))
  ]
]

module _ {F : Type 0} where
  -- A search finds the same in both maps.
  abbrev pub SameReports : Reports F → Reports F → Type 0
  SameReports m n = (name : Bytes) → find_report name m ≡ find_report name n

  find_report_head :
      (key : Bytes) (r : WxReport F) (m : Reports F) → find_report key ((key, r) ∷ m) ≡ some r
  unfolding find_report
  find_report_head key r m = rw (equal_refl key)

  find_report_empty : (key : Bytes) → find_report {F = F} key [] ≡ none
  unfolding find_report
  find_report_empty key = refl

  find_report_below :
      (name key : Bytes) (r : WxReport F) (m : Reports F)
      → less name key ≡ true
      → Above key m
      → find_report name ((key, r) ∷ m) ≡ none
  find_report_below name key r m h above =
      find_report-Above name name ((key, r) ∷ m) (h, Above-below name key m h above)
        (equal_refl name)

  -- The first keys of two maps with the same reports.
  same_head :
      (k j : Bytes) (r q : WxReport F) (m n : Reports F)
      → Above k m
      → Above j n
      → SameReports ((k, r) ∷ m) ((j, q) ∷ n)
      → k ≡ j
  same_head k j r q m n a b h = elim (Bool-cases (less k j)) [
    | inl below ↦ cc (h k, find_report_head k r m, find_report_below k j q n below b)
    | inr above ↦ elim (Bool-cases (equal k j)) [
      | inl same ↦ (equal_iff k j).0 same
      | inr other ↦
          cc
            (h j, find_report_head j q n, find_report_below j k r m (less-connex k j above other) a)
    ]
  ]

  same_tail :
      (k : Bytes) (r : WxReport F) (m n : Reports F)
      → Above k m
      → Above k n
      → SameReports ((k, r) ∷ m) ((k, r) ∷ n)
      → SameReports m n
  unfolding find_report
  same_tail k r m n a b h name = elim (Bool-cases (equal name k)) [
    | inl same ↦ find_report-Above k name m a same ∙ sym (find_report-Above k name n b same)
    | inr other ↦ rw other at (h name)
  ]

  pub IsSorted-unique : (m n : Reports F) → IsSorted m → IsSorted n → SameReports m n → m ≡ n
  IsSorted-unique [] [] s t h = refl
  IsSorted-unique [] ((j, q) ∷ n) s t h = cc (h j, find_report_head j q n, find_report_empty j)
  IsSorted-unique ((k, r) ∷ m) [] s t h = cc (h k, find_report_head k r m, find_report_empty k)
  IsSorted-unique ((k, r) ∷ m) ((j, q) ∷ n) (a, s) (b, t) h =
      let key : k ≡ j = same_head k j r q m n a b h in
      let above : Above k n = subst (λ x. Above x n) (sym key) b in
      let same : SameReports ((k, r) ∷ m) ((k, q) ∷ n) =
        subst (λ x. SameReports ((k, r) ∷ m) ((x, q) ∷ n)) (sym key) h in
      let report : r ≡ q = cc (same k, find_report_head k r m, find_report_head k q n) in
      let again : SameReports ((k, r) ∷ m) ((k, r) ∷ n) =
        subst (λ x. SameReports ((k, r) ∷ m) ((k, x) ∷ n)) (sym report) same in
      let rest = IsSorted-unique m n s t (same_tail k r m n a above again) in
      ap₂ ◌∷◌ (λ i. (key i, report i)) rest
