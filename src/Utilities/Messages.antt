-- ===== src/Utilities/Messages.antt =====
-- The messages on the values of the configuration, which both programs print by the same lines: in the
-- handlers of `process` in src/aprs_wx.cpp and src/sys_monitor.cpp.
use aprs_wx.Prelude.{
  Bool, Bytes, List, Option, Outcome, [], codes, map, get_elem?, if◌then◌else◌, none, ok, some,
  true, undefined, false, ℕ, ◌++◌, ◌==◌, ◌&&◌, ◌∙◌, ◌>>=◌, ◌∷◌, ◌≡◌, refl, Bool-cases, inl, inr,
}

-- `ConfigFile::Spec`: a key, and the item that it stands for.
abbrev pub Spec : Type 0 → Type 0
Spec K = Bytes × K

-- `"Invalid config value: " << key << '\n'`.
abbrev pub complaint_on : Bytes → Bytes
complaint_on key = codes "Invalid config value: " ++ (key ++ codes "\n")

module _ {K : Type 0} where
  -- The key of a row of the table; the access is not checked.
  abbrev pub key_at : Option (Spec K) → Outcome Bytes
  key_at none = undefined
  key_at (some (key, item)) = ok key

  module _ (index : K → ℕ) where
    -- The key that the table has for an item.
    abbrev pub key_of : List (Spec K) → K → Bytes
    key_of [] k = []
    key_of ((key, item) ∷ rows) k = if index item == index k then key else key_of rows k

    -- The end of the handler: `validValue`, and the message.
    unfoldable pub on_valid : List (Spec K) → K → Bool → Outcome (List Bytes)
    on_valid spec k true = ok []
    on_valid spec k false = do key ← key_at (get_elem? spec (index k)); ok (complaint_on key ∷ [])

module _ {K G : Type 0} (spec : List (Spec K)) (index : K → ℕ)
    (step : G → K → Bytes → G × Bool) where
  -- The messages of all items.
  unfoldable pub complaints : List (K × Bytes) → G → Outcome (List Bytes)
  unfolding on_valid
  complaints [] g = ok []
  complaints ((k, s) ∷ items) g = do
    let (g', valid) = step g k s
    here ← on_valid index spec k valid
    later ← complaints items g'
    ok (here ++ later)

  -- The keys of the items whose values are not valid.
  abbrev pub invalid_keys : List (K × Bytes) → G → List Bytes
  invalid_keys [] g = []
  invalid_keys ((k, s) ∷ items) g =
      let later = invalid_keys items (step g k s).0 in
      if (step g k s).1 then later else key_of index spec k ∷ later

  -- Where the row of each item stands at its index, there is one message for each value that is not
  -- valid, in the order of the file, with the key that the table has for its item.
  pub complaints-invalid_keys :
      ((k : K) → get_elem? spec (index k) ≡ some (key_of index spec k, k))
      → (items : List (K × Bytes)) (g : G)
      → complaints items g ≡ ok (map complaint_on (invalid_keys items g))
  unfolding complaints
  complaints-invalid_keys rows [] g = refl
  complaints-invalid_keys rows ((k, s) ∷ items) g = elim (Bool-cases (step g k s).1) [
    | inl fine ↦ rw fine (rw (complaints-invalid_keys rows items (step g k s).0, ◌>>=◌))
    | inr bad ↦ rw bad (rw (rows k) (rw (complaints-invalid_keys rows items (step g k s).0, ◌>>=◌)))
  ]

-- `path` is the output of the path.
abbrev pub invalid_file : Bytes → Bytes
invalid_file path = codes "Invalid configuration file " ++ (path ++ codes " exiting.\n")

abbrev pub no_database : Bytes → Bytes
no_database path =
    codes "Influx database not specified in " ++ (path ++ codes ", data will not be stored.\n")

abbrev pub says_if : Bool → Bytes → List Bytes
says_if true message = message ∷ []
says_if false message = []

abbrev pub is_nil : List Bytes → Bool
is_nil [] = true
is_nil (key ∷ keys) = false

pub is_nil_if :
    (b : Bool) (key : Bytes) (keys : List Bytes)
    → (b && is_nil keys) ≡ is_nil (if b then keys else key ∷ keys)
is_nil_if true key keys = refl
is_nil_if false key keys = refl

module _ {K G : Type 0} (spec : List (Spec K)) (index : K → ℕ)
    (step : G → K → Bytes → G × Bool) where
  -- `validFile` behind all items, where it is no part of another result.
  unfoldable pub all_valid : List (K × Bytes) → G → Bool → Bool
  all_valid [] g valid = valid
  all_valid ((k, s) ∷ items) g valid =
      let (g', fine) = step g k s in all_valid items g' (valid && fine)

  pub all_valid-is_nil :
      (items : List (K × Bytes)) (g : G) (valid : Bool)
      → all_valid items g valid ≡ (valid && is_nil (invalid_keys spec index step items g))
  unfolding all_valid
  all_valid-is_nil [] g true = refl
  all_valid-is_nil [] g false = refl
  all_valid-is_nil ((k, s) ∷ items) g false = all_valid-is_nil items (step g k s).0 false
  all_valid-is_nil ((k, s) ∷ items) g true =
      let (g', fine) = step g k s in
      all_valid-is_nil items g' fine
      ∙ is_nil_if fine (key_of index spec k) (invalid_keys spec index step items g')
