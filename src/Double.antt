-- ===== src/Double.antt =====
-- `double` and the functions of <cmath>, of strtod and of the stream output that the sources call.
-- They are the platform's: the development takes the type and its operations as an instance
-- argument, and states each law that a theorem needs as a hypothesis of that theorem.
pub mod Formula
use aprs_wx.Prelude.{Bool, Bytes, ℕ, ℤ}

-- The notations of an output stream; the last is `defaultfloat`.
pub data Notation : Type 0 where
  fixed_point : Notation
  scientific : Notation
  hex_float : Notation
  default_float : Notation

pub record Double (F : Type 0) : Type 0 where
  -- The double nearest to m / 10 ^ k, for the literals of the source.
  pub literal : ℕ → ℕ → F
  -- `static_cast<double>(long)`.
  pub of_long : ℤ → F
  -- `static_cast<double>(unsigned long long)`.
  pub of_unsigned : ℕ → F
  pub add : F → F → F
  pub sub : F → F → F
  pub mul : F → F → F
  pub div : F → F → F
  pub lt : F → F → Bool
  pub sin : F → F
  pub cos : F → F
  pub asin : F → F
  pub sqrt : F → F
  pub exp : F → F
  pub atan2 : F → F → F
  pub pow : F → F → F
  -- `M_PI`.
  pub pi : F
  -- `std::strtod`: the value, and how many bytes it has read.
  pub strtod : Bytes → F × ℕ
  -- `ostream << double` in a notation with a precision, and in the format of a new stream.
  pub show_as : Notation → ℕ → F → Bytes
  pub show : F → Bytes
  -- `std::chrono::duration<double>(later - earlier).count()` on two points of the steady clock.
  pub elapsed : ℕ → ℕ → F

infixl 65 ◌⊕◌ ◌⊖◌
infixl 70 ◌⊗◌ ◌⊘◌
abbrev pub ◌⊕◌ : {F : Type 0} ⦃d : Double F⦄ → F → F → F
◌⊕◌ ⦃d⦄ = d.add

abbrev pub ◌⊖◌ : {F : Type 0} ⦃d : Double F⦄ → F → F → F
◌⊖◌ ⦃d⦄ = d.sub

abbrev pub ◌⊗◌ : {F : Type 0} ⦃d : Double F⦄ → F → F → F
◌⊗◌ ⦃d⦄ = d.mul

abbrev pub ◌⊘◌ : {F : Type 0} ⦃d : Double F⦄ → F → F → F
◌⊘◌ ⦃d⦄ = d.div

-- An integral literal, or an `int` converted by the usual arithmetic conversions.
abbrev pub whole : {F : Type 0} ⦃d : Double F⦄ → ℕ → F
whole ⦃d⦄ n = d.literal n 0
