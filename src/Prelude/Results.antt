-- ===== src/Prelude/Results.antt =====
-- What a C++ call may do: return, throw, leave the defined behaviour of the language, or end the
-- process by `exit(1)`.
use mathlib.Core.Path.{◌≡◌, refl}
use mathlib.Core.Option.{Option, none, some}

-- The exceptions that the modelled code can raise; all are `std::exception`s.
pub data Exception : Type 0 where
  out_of_range range_error bad_optional_access logic_error : Exception

-- `unfinished` is no behaviour of the code: the fuel of a loop, or the input that it waits for,
-- ran out.
pub data Outcome {ℓ} (A : Type ℓ) : Type ℓ where
  ok : A → Outcome A
  throws : Exception → Outcome A
  undefined : Outcome A
  exits : Outcome A
  unfinished : Outcome A

-- What follows a call runs only if the call returns.
module _ {ℓ κ} {A : Type ℓ} {B : Type κ} where
  infixl 5 ◌>>=◌
  abbrev pub ◌>>=◌ : Outcome A → (A → Outcome B) → Outcome B
  ok a >>= next = next a
  throws e >>= next = throws e
  undefined >>= next = undefined
  exits >>= next = exits
  unfinished >>= next = unfinished

-- `optional::value`.
abbrev pub value {ℓ} : {A : Type ℓ} → Option A → Outcome A
value none = throws Exception.bad_optional_access
value (some a) = ok a

-- A call that goes through has gone through its first part.
module _ {ℓ κ} {A : Type ℓ} {B : Type κ} where
  pub >>=-ok :
      {y : B} (first : Outcome A) (next : A → Outcome B)
      → (first >>= next) ≡ ok y
      → (x : A) × (first ≡ ok x) × (next x ≡ ok y)
  >>=-ok (ok x) next through = (x, refl, through)
  >>=-ok (throws e) next through = cc
  >>=-ok undefined next through = cc
  >>=-ok exits next through = cc
  >>=-ok unfinished next through = cc

-- A property of the returned value, if the call returns.
abbrev pub Ensures {ℓ κ} : {A : Type ℓ} → (A → Type κ) → Outcome A → Type κ
Ensures P (ok a) = P a
Ensures P (throws e) = Unit
Ensures P undefined = Unit
Ensures P exits = Unit
Ensures P unfinished = Unit

module _ {ℓ κ μ ν} {A : Type ℓ} {B : Type κ} where
  pub Ensures->>= :
      (P : A → Type μ) (Q : B → Type ν) (m : Outcome A) (f : A → Outcome B)
      → Ensures P m
      → ((a : A) → P a → Ensures Q (f a))
      → Ensures Q (m >>= f)
  Ensures->>= P Q (ok a) f h k = k a h
  Ensures->>= P Q (throws e) f h k = tt
  Ensures->>= P Q undefined f h k = tt
  Ensures->>= P Q exits f h k = tt
  Ensures->>= P Q unfinished f h k = tt

module _ {ℓ κ ν} {A : Type ℓ} {B : Type κ} where
  -- Where nothing need be known of the first value.
  pub Ensures-next :
      (Q : B → Type ν) (m : Outcome A) (f : A → Outcome B)
      → ((a : A) → Ensures Q (f a))
      → Ensures Q (m >>= f)
  Ensures-next Q (ok a) f k = k a
  Ensures-next Q (throws e) f k = tt
  Ensures-next Q undefined f k = tt
  Ensures-next Q exits f k = tt
  Ensures-next Q unfinished f k = tt

module _ {ℓ μ ν} {A : Type ℓ} where
  pub Ensures-map :
      {P : A → Type μ} {Q : A → Type ν} (m : Outcome A)
      → Ensures P m
      → ((a : A) → P a → Q a)
      → Ensures Q m
  Ensures-map (ok a) h f = f a h
  Ensures-map (throws e) h f = tt
  Ensures-map undefined h f = tt
  Ensures-map exits h f = tt
  Ensures-map unfinished h f = tt
