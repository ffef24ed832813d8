-- ===== src/Std/Text/Access.antt =====
-- When access to a text is defined, and what it gives.
use aprs_wx.Prelude.{
  ==_iff, All, Bool-cases, Bytes, Exception, [], ap, arith, drop, get_elem?, inl, inr, length,
  le→ltb, lt→ltb, none, ok, refl, some, suc, take, throws, undefined, zero, ℕ, ◌++◌, ◌+◌, ◌-◌, ◌<◌,
  ◌==◌, ◌^◌, ◌∷◌, ◌≡◌, ◌≢◌, ◌≤◌,
}
use aprs_wx.Std.Text.{char_at, find_from, npos, size_add, size_sub, substr}

-- A text that fits in memory: `max_size` of a string is below 2 ^ 63.
abbrev pub Fits : Bytes → Type 0
Fits s = length s < 2 ^ 63

pub size_add_exact : (a b : ℕ) → a + b < 2 ^ 64 → size_add a b ≡ a + b
unfolding size_add
size_add_exact a b h = omega arith

pub size_sub_exact : (a b : ℕ) → b ≤ a → a < 2 ^ 64 → size_sub a b ≡ a - b
unfolding size_sub
size_sub_exact a b h k = omega arith

pub substr_inside : (s : Bytes) (i n : ℕ) → i ≤ length s → substr s i n ≡ ok (take n (drop i s))
unfolding substr
substr_inside s i n h = rw (le→ltb (length s) i h)

pub substr_outside :
    (s : Bytes) (i n : ℕ) → length s < i → substr s i n ≡ throws Exception.out_of_range
unfolding substr
substr_outside s i n h = rw (lt→ltb (length s) i h)

pub get_elem?_outside : (s : Bytes) (i : ℕ) → length s ≤ i → get_elem? s i ≡ none
get_elem?_outside [] i h = refl
get_elem?_outside (x ∷ s) zero h = absurd (omega arith)
get_elem?_outside (x ∷ s) (suc i) h = get_elem?_outside s i (omega arith)

-- `s[i]` where it is defined: the terminating zero may be read.
abbrev pub byte_at : Bytes → ℕ → ℕ
byte_at [] i = 0
byte_at (x ∷ s) zero = x
byte_at (x ∷ s) (suc i) = byte_at s i

pub byte_at-drop : (s : Bytes) (i j : ℕ) → byte_at (drop i s) j ≡ byte_at s (i + j)
byte_at-drop s zero j = ap (byte_at s) (omega arith)
byte_at-drop [] (suc i) j = refl
byte_at-drop (x ∷ s) (suc i) j =
    let e : suc i + j ≡ suc (i + j) = omega arith in rw e (byte_at-drop s i j)

pub get_elem?-byte_at : (s : Bytes) (i : ℕ) → i < length s → get_elem? s i ≡ some (byte_at s i)
get_elem?-byte_at [] i h = elim h [ ]
get_elem?-byte_at (x ∷ s) zero h = refl
get_elem?-byte_at (x ∷ s) (suc i) h = get_elem?-byte_at s i (omega arith)

pub byte_at_end : (s : Bytes) → byte_at s (length s) ≡ 0
byte_at_end [] = refl
byte_at_end (x ∷ s) = byte_at_end s

pub char_at_inside : (s : Bytes) (i : ℕ) → i ≤ length s → char_at s i ≡ ok (byte_at s i)
unfolding char_at
char_at_inside s i h = elim (Bool-cases (i == length s)) [
  | inl e ↦
      let here : i ≡ length s = (==_iff i (length s)).0 e in
      rw (get_elem?_outside s i (omega arith), char_at) (rw e (rw here (rw byte_at_end)))
  | inr e ↦ rw (get_elem?-byte_at s i (ground arith), char_at)
]

pub char_at_outside : (s : Bytes) (i : ℕ) → length s < i → char_at s i ≡ undefined
unfolding char_at
char_at_outside s i h = rw (get_elem?_outside s i (omega arith), char_at) (ground arith)

pub drop_inside : (s : Bytes) (i : ℕ) → i < length s → drop i s ≡ byte_at s i ∷ drop (i + 1) s
drop_inside [] i h = elim h [ ]
drop_inside (x ∷ s) zero h = refl
drop_inside (x ∷ s) (suc i) h =
    let e : suc i + 1 ≡ suc (i + 1) = omega arith in rw e (drop_inside s i (omega arith))

pub drop_outside : (s : Bytes) (i : ℕ) → length s ≤ i → drop i s ≡ []
drop_outside [] zero h = refl
drop_outside [] (suc i) h = refl
drop_outside (x ∷ s) zero h = absurd (omega arith)
drop_outside (x ∷ s) (suc i) h = drop_outside s i (omega arith)

pub byte_at-append : (s t : Bytes) (j : ℕ) → byte_at (s ++ t) (length s + j) ≡ byte_at t j
byte_at-append [] t j = ap (byte_at t) (omega arith)
byte_at-append (x ∷ s) t j =
    let e : suc (length s) + j ≡ suc (length s + j) = omega arith in rw e (byte_at-append s t j)

-- `s` does not hold the byte `x`.
abbrev pub Lacks : ℕ → Bytes → Type 0
Lacks x = All (λ y. y ≢ x)

pub find_from_here :
    (x i : ℕ) (pre rest : Bytes) → Lacks x pre → find_from x (pre ++ x ∷ rest) i ≡ i + length pre
unfolding find_from
find_from_here x i [] rest h = ground arith
find_from_here x i (y ∷ pre) rest h = ground (arith, find_from_here x (i + 1) pre rest h.1, h.0)

pub find_from_absent : (x i : ℕ) (s : Bytes) → Lacks x s → find_from x s i ≡ npos
unfolding find_from
find_from_absent x i [] h = refl
find_from_absent x i (y ∷ s) h = ground (arith, find_from_absent x (i + 1) s h.1, h.0)

pub byte_at_here : (s : Bytes) (x : ℕ) (t : Bytes) → byte_at (s ++ x ∷ t) (length s) ≡ x
byte_at_here [] x t = refl
byte_at_here (y ∷ s) x t = byte_at_here s x t
