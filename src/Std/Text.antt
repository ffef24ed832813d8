-- ===== src/Std/Text.antt =====
-- `std::size_t` arithmetic, `std::string` access and search, and the text functions of the C library.
pub mod Access
use aprs_wx.Prelude.{
  Bool, Bytes, Exception, Outcome, [], drop, false, get_elem?, if◌then◌else◌, leb, length, ltb,
  none, ok, some, take, throws, true, undefined, ℕ, ◌%◌, ◌&&◌, ◌+◌, ◌-◌, ◌==◌, ◌^◌, ◌∷◌,
}

-- The modulus of `std::size_t`, and `std::string::npos`.
abbrev pub size_mod : ℕ
size_mod = 2 ^ 64

abbrev pub npos : ℕ
npos = 2 ^ 64 - 1

unfoldable pub size_add : ℕ → ℕ → ℕ
size_add a b = (a + b) % size_mod

unfoldable pub size_sub : ℕ → ℕ → ℕ
size_sub a b = (a + size_mod - b) % size_mod

-- `s[i]`: the terminating zero at `s.size()`, and undefined behind it.
unfoldable pub char_at : Bytes → ℕ → Outcome ℕ
char_at s i = elim (get_elem? s i) [
  | some c ↦ ok c
  | none ↦ if i == length s then ok 0 else undefined
]

-- `s.substr(pos, count)`.
unfoldable pub substr : Bytes → ℕ → ℕ → Outcome Bytes
substr s from count =
    if ltb (length s) from then throws Exception.out_of_range else ok (take count (drop from s))

-- The index of the first `c`, where the list starts at index `i`.
unfoldable pub find_from : ℕ → Bytes → ℕ → ℕ
find_from c [] i = npos
find_from c (x ∷ xs) i = if x == c then i else find_from c xs (i + 1)

-- `s.find(c, pos)`.
unfoldable pub find : Bytes → ℕ → ℕ → ℕ
unfolding find_from
find s c from = find_from c (drop from s) from

unfoldable pub starts_with : Bytes → Bytes → Bool
starts_with [] s = true
starts_with (p ∷ pre) [] = false
starts_with (p ∷ pre) (c ∷ s) = p == c && starts_with pre s

-- `toupper` of the "C" locale.
unfoldable pub to_upper : ℕ → ℕ
to_upper c = if leb b'a' c && leb c b'z' then c - 32 else c

-- `tolower` of the "C" locale.
unfoldable pub to_lower : ℕ → ℕ
to_lower c = if leb b'A' c && leb c b'Z' then c + 32 else c

-- `c_str` as the C library reads it: the bytes before the first zero.
unfoldable pub c_string : Bytes → Bytes
c_string [] = []
c_string (c ∷ s) = if c == 0 then [] else c ∷ c_string s
