-- ===== src/Std/Number.antt =====
-- `std::from_chars` at the integer types that the sources read, `long` and `unsigned long long`, the
-- output of an unsigned number, and `std::strtol` at the base 10.
pub mod Digits
use aprs_wx.Prelude.{
  negsuc, Bool, Bytes, [], false, if◌then◌else◌, leb, ltb, neg_ℕ, pos, suc, true, zero, ℕ, ℤ, ◌%◌,
  ◌&&◌, ◌*◌, ◌++◌, ◌+◌, ◌-◌, ◌/◌, ◌==◌, ◌^◌, ◌||◌, ◌∷◌,
}
use aprs_wx.Std.Text.{c_string}

unfoldable pub is_digit : ℕ → Bool
is_digit c = leb b'0' c && leb c b'9'

-- The number that the leading digits stand for, behind `acc`.
unfoldable pub digits_value : ℕ → Bytes → ℕ
unfolding is_digit
digits_value acc [] = acc
digits_value acc (c ∷ s) = elim (is_digit c) [
  | true ↦ digits_value (acc * 10 + (c - b'0')) s
  | false ↦ acc
]

-- What stands behind the leading digits.
unfoldable pub after_digits : Bytes → Bytes
unfolding is_digit
after_digits [] = []
after_digits (c ∷ s) = if is_digit c then after_digits s else c ∷ s

unfoldable pub starts_digit : Bytes → Bool
unfolding is_digit
starts_digit [] = false
starts_digit (c ∷ s) = is_digit c

-- The value and the text behind it (`ptr`), or the error code.
pub data FromChars (A : Type 0) : Type 0 where
  parsed : A → Bytes → FromChars A
  invalid_argument : FromChars A
  result_out_of_range : FromChars A

unfoldable pub from_chars_unsigned : Bytes → FromChars ℕ
unfolding starts_digit digits_value after_digits
from_chars_unsigned s =
    if starts_digit s
    then if ltb (digits_value 0 s) (2 ^ 64)
      then parsed (digits_value 0 s) (after_digits s)
      else result_out_of_range
    else invalid_argument

-- The decimal digits of a number, as `<<` prints an unsigned one; `fuel` is above their count.
abbrev pub decimal : ℕ → ℕ → Bytes
decimal zero n = []
decimal (suc fuel) n =
    let front = decimal fuel (n / 10) in (if ltb n 10 then [] else front) ++ (b'0' + n % 10) ∷ []

abbrev pub print_unsigned : ℕ → Bytes
print_unsigned n = decimal (n + 1) n

-- The output of an `int`.
abbrev pub print_signed : ℤ → Bytes
print_signed (pos n) = print_unsigned n
print_signed (negsuc n) = b'-' ∷ print_unsigned (n + 1)

-- The digits of a `long`; `negative` says that a minus sign stood in front.
unfoldable pub from_chars_digits : Bool → Bytes → FromChars ℤ
unfolding starts_digit digits_value after_digits
from_chars_digits negative s =
    let limit = if negative then 2 ^ 63 + 1 else 2 ^ 63 in
    let n = digits_value 0 s in
    if starts_digit s
    then if ltb n limit
      then parsed (if negative then neg_ℕ n else pos n) (after_digits s)
      else result_out_of_range
    else invalid_argument

unfoldable pub from_chars_long : Bytes → FromChars ℤ
unfolding from_chars_digits
from_chars_long [] = invalid_argument
from_chars_long (c ∷ s) =
    if c == b'-' then from_chars_digits true s else from_chars_digits false (c ∷ s)

-- `isspace` of the "C" locale.
unfoldable pub is_space : ℕ → Bool
is_space c = c == 32 || leb 9 c && leb c 13

unfoldable pub after_spaces : Bytes → Bytes
unfolding is_space
after_spaces [] = []
after_spaces (c ∷ s) = if is_space c then after_spaces s else c ∷ s

-- The number of the leading digits at a sign, held inside `long`; 0 where there is no digit.
unfoldable pub strtol_digits : Bool → Bytes → ℤ
unfolding digits_value
strtol_digits negative s =
    let n = digits_value 0 s in
    if negative
    then neg_ℕ (if ltb n (2 ^ 63) then n else 2 ^ 63)
    else pos (if ltb n (2 ^ 63) then n else 2 ^ 63 - 1)

unfoldable pub strtol_signed : Bytes → ℤ
unfolding strtol_digits
strtol_signed [] = pos 0
strtol_signed (c ∷ s) =
    if c == b'-'
    then strtol_digits true s
    else if c == b'+'
    then strtol_digits false s
    else strtol_digits false (c ∷ s)

-- `std::strtol` at the base 10, on a text up to its first zero byte.
unfoldable pub strtol : Bytes → ℤ
unfolding after_spaces strtol_signed
strtol s = strtol_signed (after_spaces (c_string s))
