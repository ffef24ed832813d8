-- ===== src/Monitor/CpuStats/Reading.antt =====
-- `CpuStats::getData` of src/sys_monitor.cpp, on lines of numbers with blanks between them.
use aprs_wx.Monitor.CpuStats.{
  Counters, CpuStats, before_blank, count_of_items, from_blank, from_digit, get_data, on_digit,
  read_numbers, set_counter,
}
use aprs_wx.Prelude.{
  All, Bool, Bytes, List, [], ap, lt→ltb, ne→==, refl, some, suc, true, zero, ℕ, ◌*◌, ◌++◌, ◌+◌,
  ◌-◌, ◌<◌, ◌^◌, ◌∷◌, ◌≡◌, ◌≢◌,
}
use aprs_wx.Std.Number.{
  after_digits, digits_value, from_chars_unsigned, is_digit, parsed, starts_digit,
}

-- A number as the kernel prints it.
abbrev pub IsNumber : Bytes → Type 0
IsNumber s = All (λ c. is_digit c ≡ true) s × (starts_digit s ≡ true) × (digits_value 0 s < 2 ^ 64)

-- The numbers with a blank in front of each.
abbrev pub spaced : List Bytes → Bytes
spaced [] = []
spaced (x ∷ xs) = b' ' ∷ (x ++ spaced xs)

-- The first line of /proc/stat: two blanks stand behind its name.
abbrev pub stat_line : Bytes → List Bytes → Bytes
stat_line head xs = head ++ b' ' ∷ spaced xs

-- The counters with the values of `xs` from index `i` on, up to `n` of them.
abbrev pub store_numbers : ℕ → ℕ → List Bytes → Counters → Counters
store_numbers zero i xs f = f
store_numbers (suc n) i [] f = f
store_numbers (suc n) i (x ∷ xs) f = store_numbers n (i + 1) xs (set_counter f i (digits_value 0 x))

digits_value-spaced :
    (acc : ℕ) (x : Bytes) (xs : List Bytes)
    → All (λ c. is_digit c ≡ true) x
    → digits_value acc (x ++ spaced xs) ≡ digits_value acc x
unfolding digits_value
digits_value-spaced acc [] [] h = refl
digits_value-spaced acc [] (y ∷ ys) h = refl
digits_value-spaced acc (c ∷ x) xs (e, h) =
    rw (e, digits_value) (digits_value-spaced (acc * 10 + (c - b'0')) x xs h)

after_digits-spaced :
    (x : Bytes) (xs : List Bytes)
    → All (λ c. is_digit c ≡ true) x
    → after_digits (x ++ spaced xs) ≡ spaced xs
unfolding after_digits
after_digits-spaced [] [] h = refl
after_digits-spaced [] (y ∷ ys) h = refl
after_digits-spaced (c ∷ x) xs (e, h) = rw e (after_digits-spaced x xs h)

from_digit-spaced :
    (x : Bytes) (xs : List Bytes)
    → starts_digit x ≡ true
    → from_digit (b' ' ∷ (x ++ spaced xs)) ≡ x ++ spaced xs
unfolding from_digit starts_digit
from_digit-spaced [] xs h = cc
from_digit-spaced (c ∷ x) xs h = rw h

from_chars_unsigned-spaced :
    (x : Bytes) (xs : List Bytes)
    → IsNumber x
    → from_chars_unsigned (x ++ spaced xs) ≡ parsed (digits_value 0 x) (spaced xs)
unfolding from_chars_unsigned starts_digit
from_chars_unsigned-spaced [] xs (h, k, l) = cc
from_chars_unsigned-spaced (c ∷ x) xs (h, k, l) = rw k (
    rw (digits_value-spaced 0 (c ∷ x) xs h)
      (rw (lt→ltb (digits_value 0 (c ∷ x)) (2 ^ 64) l) (rw (after_digits-spaced x xs h.1))))

-- `on_digit` looks at its text only to see that it is not empty.
on_digit_number :
    (again : Bytes → Counters → Bool × Counters) (i : ℕ) (x : Bytes) (xs : List Bytes)
    (f : Counters)
    → IsNumber x
    → on_digit again i (x ++ spaced xs) f ≡ again (spaced xs) (set_counter f i (digits_value 0 x))
unfolding on_digit starts_digit
on_digit_number again i [] xs f (h, k, l) = cc
on_digit_number again i (c ∷ x) xs f h = rw (from_chars_unsigned-spaced (c ∷ x) xs h)

read_numbers-spaced :
    (n i : ℕ) (xs : List Bytes) (f : Counters)
    → All IsNumber xs
    → read_numbers n i (spaced xs) f ≡ (true, store_numbers n i xs f)
unfolding read_numbers from_digit
read_numbers-spaced zero i xs f h = refl
read_numbers-spaced (suc n) i [] f h = refl
read_numbers-spaced (suc n) i (x ∷ xs) f (h, hs) = rw (from_digit-spaced x xs h.1) (
    rw (on_digit_number (read_numbers n (i + 1)) i x xs f h)
      (read_numbers-spaced n (i + 1) xs (set_counter f i (digits_value 0 x)) hs))

from_blank-stat_line :
    (head : Bytes) (xs : List Bytes)
    → All (λ c. c ≢ b' ') head
    → from_blank (stat_line head xs) ≡ b' ' ∷ spaced xs
unfolding from_blank
from_blank-stat_line [] xs h = refl
from_blank-stat_line (c ∷ head) xs (e, h) = rw (ne→== c b' ' e) (from_blank-stat_line head xs h)

before_blank-stat_line :
    (head : Bytes) (xs : List Bytes)
    → All (λ c. c ≢ b' ') head
    → before_blank (stat_line head xs) ≡ head
unfolding before_blank
before_blank-stat_line [] xs h = refl
before_blank-stat_line (c ∷ head) xs (e, h) =
    rw (ne→== c b' ' e) (ap (◌∷◌ c) (before_blank-stat_line head xs h))

-- `getData` on a first line of a name without blanks, two blanks, and numbers below 2 ^ 64 with a blank
-- between them: it returns true, and stores the name and the first ten of the numbers, each at its
-- index; entries behind the last number keep their old values.
pub get_data_numbers :
    (head : Bytes) (xs : List Bytes) (s : CpuStats)
    → All (λ c. c ≢ b' ') head
    → All IsNumber xs
    → get_data (some (stat_line head xs)) s
      ≡ (true, record s { name = head; counts = store_numbers count_of_items 0 xs s.counts })
unfolding get_data
get_data_numbers head xs s h k =
    let read : read_numbers count_of_items 0 (b' ' ∷ spaced xs) s.counts
        ≡ (true, store_numbers count_of_items 0 xs s.counts) =
      unfold read_numbers from_digit in read_numbers-spaced count_of_items 0 xs s.counts k in
    rw (from_blank-stat_line head xs h) (rw read (rw (before_blank-stat_line head xs h)))
