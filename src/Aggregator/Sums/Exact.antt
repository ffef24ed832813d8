-- ===== src/Aggregator/Sums/Exact.antt =====
-- The rounds of `aggregateData` of src/WeatherAggregator.cpp, against lists of values and weights.
use aprs_wx.Aggregator.Sums.{WeatherAggregator, add_item, add_items, add_weighted}
use aprs_wx.AprsIs.Decode.{weight}
use aprs_wx.Double.{Double, ◌⊕◌, ◌⊗◌}
use aprs_wx.Packet.Items.{WeatherItem, sym_index}
use aprs_wx.Packet.Report.{Slots, WxReport, set_slot}
use aprs_wx.Prelude.{
  ==_iff, Bool-cases, Bytes, List, Option, Outcome, [], ap, arith, has_value, if◌then◌else◌, inl,
  inr, none, ok, refl, some, suc, sym, zero, ℕ, ◌++◌, ◌==◌, ◌>>=◌, ◌∙◌, ◌∷◌, ◌≡◌,
}
use mathlib.Core.Path.{fun_ext, subst}

module _ {F : Type 0} ⦃d : Double F⦄ where
  abbrev plus : Option F → F → Option F
  plus none x = some x
  plus (some s) x = some (s ⊕ x)

  -- The sum of value times weight, and the sum of the weights, added up from the left.
  abbrev pub weighted_sum : Option F → List (F × F) → Option F
  weighted_sum acc [] = acc
  weighted_sum acc ((v, h) ∷ ps) = weighted_sum (plus acc (v ⊗ h)) ps

  abbrev pub weight_sum : Option F → List (F × F) → Option F
  weight_sum acc [] = acc
  weight_sum acc ((v, h) ∷ ps) = weight_sum (plus acc h) ps

  weighted_sum-append :
      (acc : Option F) (ps qs : List (F × F))
      → weighted_sum acc (ps ++ qs) ≡ weighted_sum (weighted_sum acc ps) qs
  weighted_sum-append acc [] qs = refl
  weighted_sum-append acc ((v, h) ∷ ps) qs = weighted_sum-append (plus acc (v ⊗ h)) ps qs

  weight_sum-append :
      (acc : Option F) (ps qs : List (F × F))
      → weight_sum acc (ps ++ qs) ≡ weight_sum (weight_sum acc ps) qs
  weight_sum-append acc [] qs = refl
  weight_sum-append acc ((v, h) ∷ ps) qs = weight_sum-append (plus acc h) ps qs

  -- A slot has a sum exactly if it has a weight.
  abbrev pub IsPaired : WeatherAggregator F → Type 0
  IsPaired a = (i : ℕ) → has_value (a.value_aggregate i) ≡ has_value (a.hann_aggregate i)

  -- From `a` to `b` the values and weights `ps i` have come into each slot `i`.
  pub record Adds (a b : WeatherAggregator F) (ps : ℕ → List (F × F)) : Type 0 where
    pub same_reports : b.reports ≡ a.reports
    pub sums : (i : ℕ) → b.value_aggregate i ≡ weighted_sum (a.value_aggregate i) (ps i)
    pub weights : (i : ℕ) → b.hann_aggregate i ≡ weight_sum (a.hann_aggregate i) (ps i)
    pub paired : IsPaired b

  pub Adds-nothing : (a : WeatherAggregator F) → IsPaired a → Adds a a (λ i. [])
  Adds-nothing a p = record {
    same_reports = refl;
    sums = λ i. refl;
    weights = λ i. refl;
    paired = p;
  }

  pub Adds-append :
      {a b e : WeatherAggregator F} {ps qs : ℕ → List (F × F)}
      → Adds a b ps
      → Adds b e qs
      → Adds a e (λ i. ps i ++ qs i)
  Adds-append {a} {b} {e} {ps} {qs} x y = record {
    same_reports = y.same_reports ∙ x.same_reports;
    sums = λ i.
        y.sums i
        ∙ (ap (λ s. weighted_sum s (qs i)) (x.sums i)
            ∙ sym (weighted_sum-append (a.value_aggregate i) (ps i) (qs i)));
    weights = λ i.
        y.weights i
        ∙ (ap (λ s. weight_sum s (qs i)) (x.weights i)
            ∙ sym (weight_sum-append (a.hann_aggregate i) (ps i) (qs i)));
    paired = y.paired;
  }

  abbrev pub copies : ℕ → F × F → List (F × F)
  copies zero p = []
  copies (suc n) p = p ∷ copies n p

  -- The value of a slot with its weight, `n` times.
  abbrev pub slot_pairs : F → Option F → ℕ → List (F × F)
  slot_pairs hann none n = []
  slot_pairs hann (some v) n = copies n (v, hann)

  -- What one item adds to slot `j`: its slot is `i`, which holds `o`.
  abbrev pub item_pairs : F → Option F → ℕ → ℕ → List (F × F)
  item_pairs hann o i j = if i == j then slot_pairs hann o 1 else []

  item_pairs_none : (hann : F) (i j : ℕ) → item_pairs hann none i j ≡ []
  item_pairs_none hann i j = ground arith

  -- The outcome of a step that adds `ps`.
  abbrev pub StepAdds :
      WeatherAggregator F → Outcome (WeatherAggregator F) → (ℕ → List (F × F)) → Type 0
  StepAdds a run ps = (b : WeatherAggregator F) × (run ≡ ok b) × Adds a b ps

  add_weighted_paired :
      (v hann : F) (sum weight : Option F)
      → has_value sum ≡ has_value weight
      → (s : F) × (w : F) × (add_weighted v hann sum weight ≡ ok (s, w))
        × (plus sum (v ⊗ hann) ≡ some s)
        × (plus weight hann ≡ some w)
  unfolding add_weighted
  add_weighted_paired v hann none none h = (_, _, refl, refl, refl)
  add_weighted_paired v hann (some s) (some w) h = (_, _, refl, refl, refl)
  add_weighted_paired v hann none (some w) h = cc
  add_weighted_paired v hann (some s) none h = cc

  set_slot_sum :
      (f : Slots F) (v hann s : F) (i j : ℕ)
      → plus (f i) (v ⊗ hann) ≡ some s
      → set_slot f i s j ≡ weighted_sum (f j) (if i == j then (v, hann) ∷ [] else [])
  set_slot_sum f v hann s i j h = elim (Bool-cases (i == j)) [
    | inl e ↦ rw e (sym h ∙ ap (λ k. plus (f k) (v ⊗ hann)) ((==_iff i j).0 e))
    | inr e ↦ rw e
  ]

  set_slot_weight :
      (f : Slots F) (v hann w : F) (i j : ℕ)
      → plus (f i) hann ≡ some w
      → set_slot f i w j ≡ weight_sum (f j) (if i == j then (v, hann) ∷ [] else [])
  set_slot_weight f v hann w i j h = elim (Bool-cases (i == j)) [
    | inl e ↦ rw e (sym h ∙ ap (λ k. plus (f k) hann) ((==_iff i j).0 e))
    | inr e ↦ rw e
  ]

  set_slot_paired :
      (f g : Slots F) (s w : F) (i j : ℕ)
      → has_value (f j) ≡ has_value (g j)
      → has_value (set_slot f i s j) ≡ has_value (set_slot g i w j)
  set_slot_paired f g s w i j h = elim (Bool-cases (i == j)) [ inl e ↦ rw e | inr e ↦ rw e h ]

  add_item-StepAdds :
      (hann : F) (o : Option F) (i : ℕ) (a : WeatherAggregator F)
      → IsPaired a
      → StepAdds a (add_item hann o i a) (item_pairs hann o i)
  unfolding add_item
  add_item-StepAdds hann none i a p =
      (a, refl, subst (Adds a a) (sym (fun_ext (item_pairs_none hann i))) (Adds-nothing a p))
  add_item-StepAdds hann (some v) i a p =
      let (s, w, run, sum, weight) =
        add_weighted_paired v hann (a.value_aggregate i) (a.hann_aggregate i) (p i) in
      (
        record a {
          value_aggregate = set_slot a.value_aggregate i s;
          hann_aggregate = set_slot a.hann_aggregate i w;
        },
        rw run,
        record {
          same_reports = refl;
          sums = λ j. set_slot_sum a.value_aggregate v hann s i j sum;
          weights = λ j. set_slot_weight a.hann_aggregate v hann w i j weight;
          paired = λ j. set_slot_paired a.value_aggregate a.hann_aggregate s w i j (p j);
        },
      )

  -- Two steps in a row.
  pub StepAdds->>= :
      (a : WeatherAggregator F) (run : Outcome (WeatherAggregator F))
      (next : WeatherAggregator F → Outcome (WeatherAggregator F)) {ps qs : ℕ → List (F × F)}
      → StepAdds a run ps
      → ((b : WeatherAggregator F) → IsPaired b → StepAdds b (next b) qs)
      → StepAdds a (run >>= next) (λ i. ps i ++ qs i)
  StepAdds->>= a run next (b, e, x) k =
      let (z, e', y) = k b x.paired in (z, rw e e', Adds-append x y)

  -- What the items add, in their order, of a report with these values.
  abbrev pub items_pairs : F → Slots F → List WeatherItem → ℕ → List (F × F)
  items_pairs hann values [] j = []
  items_pairs hann values (it ∷ items) j =
      item_pairs hann (values (sym_index it.wx_sym)) (sym_index it.wx_sym) j
      ++ items_pairs hann values items j

  pub add_items-StepAdds :
      (hann : F) (values : Slots F) (items : List WeatherItem) (a : WeatherAggregator F)
      → IsPaired a
      → StepAdds a (add_items hann values items a) (items_pairs hann values items)
  unfolding add_items
  add_items-StepAdds hann values [] a p = (a, refl, Adds-nothing a p)
  add_items-StepAdds hann values (it ∷ items) a p =
      let i = sym_index it.wx_sym in
      StepAdds->>= a (add_item hann (values i) i a) (λ b. add_items hann values items b)
        (add_item-StepAdds hann (values i) i a p) (λ b q. add_items-StepAdds hann values items b q)

  -- The report carries a weight.
  abbrev pub HasWeight : Bytes × WxReport F → Type 0
  HasWeight e = (h : F) × (((e.1).position).hann_value ≡ some h)
