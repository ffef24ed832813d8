-- ===== src/Monitor/CpuStats.antt =====
-- `class CpuStats` of src/sys_monitor.cpp: the first line of /proc/stat, and the usage between two
-- readings. A position in the line is the text from it on, and `npos` is the empty text.
pub mod Usage
pub mod Reading
use aprs_wx.Double.{Double, whole, ◌⊗◌, ◌⊘◌}
use aprs_wx.Prelude.{
  Bool, Bytes, Option, [], false, get_elem?, if◌then◌else◌, none, not, some, suc, true, zero, ℕ,
  ◌%◌, ◌+◌, ◌-◌, ◌==◌, ◌^◌, ◌∷◌,
}
use aprs_wx.Std.Number.{
  FromChars, from_chars_unsigned, invalid_argument, is_digit, parsed, result_out_of_range,
}

-- `enum Item`.
pub data Item : Type 0 where
  user : Item
  nice : Item
  system : Item
  idle : Item
  io_wait : Item
  irq : Item
  soft_irq : Item
  steal : Item
  guest : Item
  guest_nice : Item
  item_count : Item

-- `static_cast<Item>(idx)`, where it names an enumerator.
unfoldable pub item_of : ℕ → Option Item
item_of i =
    get_elem?
      (user ∷ nice ∷ system ∷ idle ∷ io_wait ∷ irq ∷ soft_irq ∷ steal ∷ guest ∷ guest_nice
        ∷ item_count ∷ [])
      i

abbrev pub count_of_items : ℕ
count_of_items = 10

-- The ten entries of an array, by their index.
abbrev pub Counters : Type 0
Counters = ℕ → ℕ

abbrev pub set_counter : Counters → ℕ → ℕ → Counters
set_counter f i v j = if i == j then v else f j

pub record CpuStats : Type 0 where
  pub name : Bytes
  pub counts : Counters
  pub past_counts : Counters

-- The constructor.
abbrev pub new_stats : CpuStats
new_stats = record { name = []; counts = λ i. 0; past_counts = λ i. 0 }

-- `setPastData`.
unfoldable pub set_past_data : CpuStats → CpuStats
set_past_data s = record s { past_counts = s.counts }

-- `find(' ')` with the position itself as the text from it on.
unfoldable pub from_blank : Bytes → Bytes
from_blank [] = []
from_blank (c ∷ s) = if c == b' ' then c ∷ s else from_blank s

-- `substr(0, find(' '))`.
unfoldable pub before_blank : Bytes → Bytes
before_blank [] = []
before_blank (c ∷ s) = if c == b' ' then [] else c ∷ before_blank s

-- `find_first_of("0123456789")`.
unfoldable pub from_digit : Bytes → Bytes
unfolding is_digit
from_digit [] = []
from_digit (c ∷ s) = if is_digit c then c ∷ s else from_digit s

-- One round of the loop of `getData`, on what `from_chars` returned; `again` is the loop.
unfoldable pub on_number :
    (Bytes → Counters → Bool × Counters) → ℕ → FromChars ℕ → Counters → Bool × Counters
on_number again i (parsed v rest) f = again rest (set_counter f i v)
on_number again i invalid_argument f = (false, f)
on_number again i result_out_of_range f = (false, f)

unfoldable pub on_digit :
    (Bytes → Counters → Bool × Counters) → ℕ → Bytes → Counters → Bool × Counters
unfolding on_number
on_digit again i [] f = (true, f)
on_digit again i (c ∷ s) f = on_number again i (from_chars_unsigned (c ∷ s)) f

-- The loop of `getData`, with the rounds that are left.
unfoldable pub read_numbers : ℕ → ℕ → Bytes → Counters → Bool × Counters
unfolding on_digit
read_numbers zero i s f = (true, f)
read_numbers (suc n) i s f = on_digit (read_numbers n (i + 1)) i (from_digit s) f

-- `getData`, on the first line of the file, if it can be opened.
unfoldable pub get_data : Option Bytes → CpuStats → Bool × CpuStats
get_data none s = (true, s)
get_data (some line) s =
    let (fine, f) = read_numbers count_of_items 0 (from_blank line) s.counts in
    (fine, record s { name = before_blank line; counts = f })

-- The difference of two counters, and their sum, as `unsigned long long`.
abbrev pub since : ℕ → ℕ → ℕ
since now past = (now + 2 ^ 64 - past) % 2 ^ 64

abbrev pub accumulate : ℕ → ℕ → ℕ
accumulate sum x = (sum + x) % 2 ^ 64

-- The `switch` of `getUsage`, on a pair of `used` and `idle` and the difference of one counter.
unfoldable pub on_item : Option Item → ℕ → ℕ × ℕ → ℕ × ℕ
on_item (some idle) x (used, unused) = (used, accumulate unused x)
on_item (some io_wait) x (used, unused) = (used, accumulate unused x)
on_item (some user) x u = u
on_item (some nice) x u = u
on_item (some system) x u = u
on_item (some irq) x u = u
on_item (some soft_irq) x u = u
on_item (some steal) x u = u
on_item (some guest) x u = u
on_item (some guest_nice) x u = u
on_item (some item_count) x u = u
on_item none x (used, unused) = (accumulate used x, unused)

-- The loop of `getUsage`, with the rounds that are left.
unfoldable pub usage_from : ℕ → ℕ → CpuStats → ℕ × ℕ → ℕ × ℕ
unfolding on_item item_of
usage_from zero i s u = u
usage_from (suc n) i s u =
    usage_from n (i + 1) s (on_item (item_of i) (since (s.counts i) (s.past_counts i)) u)

unfoldable pub get_usage : CpuStats → ℕ × ℕ
unfolding usage_from
get_usage s = usage_from count_of_items 0 s (0, 0)

-- `percentUsage` in `main`.
unfoldable pub percent_usage : {F : Type 0} ⦃d : Double F⦄ → ℕ × ℕ → F
percent_usage ⦃d⦄ (used, unused) =
    if not (accumulate used unused == 0)
    then whole 100 ⊗ d.of_unsigned used ⊘ d.of_unsigned (accumulate used unused)
    else whole 0
