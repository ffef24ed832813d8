-- ===== src/AprsIs/Cursor/Fields.antt =====
-- The methods of src/APRS_IS.h on a field of the packet that ends at a given byte.
use aprs_wx.AprsIs.Cursor.{
  Cursor, char_at_end, double_terminate_by, int_terminate_by, remainder, skip, string_terminate_by,
}
use aprs_wx.Double.{Double}
use aprs_wx.Prelude.{
  Bytes, arith, Outcome, ℤ, pos, ◌^◌, ◌<◌, ◌>>=◌, drop-append, drop-append_add, length,
  length-append, ok, take-append, take_enough, ℕ, ◌++◌, ◌+◌, ◌-◌, ◌∷◌, ◌≡◌,
}
use aprs_wx.Std.Number.{print_unsigned, strtol}
use aprs_wx.Std.Number.Digits.{Digit, print_unsigned-Lacks, strtol-print_unsigned}
use aprs_wx.Std.Text.{c_string, find, npos, size_sub, substr}
use aprs_wx.Std.Text.Access.{
  Fits, Lacks, byte_at-append, byte_at_here, char_at_inside, find_from_here, size_add_exact,
  size_sub_exact, substr_inside,
}

-- The packet at a field, behind the bytes `before` that were read.
abbrev pub at_field : (before field : Bytes) → ℕ → Bytes → ℕ → Cursor
at_field before field x rest q = record {
  packet = before ++ (field ++ x ∷ rest);
  p0 = length before;
  p1 = q;
}

-- The field is found from its first byte, and its text is cut out.
field_found :
    (before field : Bytes) (x : ℕ) (rest : Bytes)
    → Lacks x field
    → find (before ++ (field ++ x ∷ rest)) x (length before) ≡ length before + length field
unfolding find
field_found before field x rest h =
    rw (drop-append before (field ++ x ∷ rest)) (find_from_here x (length before) field rest h)

field_cut :
    (before field : Bytes) (x : ℕ) (rest : Bytes)
    → Fits (before ++ (field ++ x ∷ rest))
    → substr
        (before ++ (field ++ x ∷ rest))
        (length before)
        (size_sub (length before + length field) (length before))
      ≡ ok field
field_cut before field x rest f =
    let outer = length-append before (field ++ x ∷ rest) in
    let inner = length-append field (x ∷ rest) in
    let rest_of : length before + length field - length before ≡ length field = omega arith in
    rw (size_sub_exact (length before + length field) (length before) (omega arith) (omega arith)) (
      rw rest_of (
        rw
          (substr_inside (before ++ (field ++ x ∷ rest)) (length before) (length field)
            (omega arith))
          (rw (drop-append before (field ++ x ∷ rest)) (rw take-append))))

pub string_terminate_by_field :
    (before field : Bytes) (x : ℕ) (rest : Bytes) (q : ℕ)
    → Lacks x field
    → Fits (before ++ (field ++ x ∷ rest))
    → string_terminate_by x (at_field before field x rest q)
      ≡ ok (field, at_field before field x rest (length before + length field))
unfolding string_terminate_by
string_terminate_by_field before field x rest q h f =
    rw (field_found before field x rest h) (rw (field_cut before field x rest f))

pub int_terminate_by_field :
    (before field : Bytes) (x : ℕ) (rest : Bytes) (q : ℕ)
    → Lacks x field
    → Fits (before ++ (field ++ x ∷ rest))
    → int_terminate_by x (at_field before field x rest q)
      ≡ ok (strtol field, at_field before field x rest (length before + length field))
unfolding int_terminate_by
int_terminate_by_field before field x rest q h f =
    rw (field_found before field x rest h) (rw (field_cut before field x rest f))

pub double_terminate_by_field :
    {F : Type 0} ⦃d : Double F⦄ (before field : Bytes) (x : ℕ) (rest : Bytes) (q : ℕ)
    → Lacks x field
    → Fits (before ++ (field ++ x ∷ rest))
    → double_terminate_by x (at_field before field x rest q)
      ≡ ok (
        (d.strtod (c_string field)).0,
        at_field before field x rest (length before + length field),
      )
unfolding double_terminate_by
double_terminate_by_field before field x rest q h f =
    rw (field_found before field x rest h) (rw (field_cut before field x rest f))

-- Behind a field, `charAtEnd` is the byte that ends it.
char_at_end_field :
    (before field : Bytes) (x : ℕ) (rest : Bytes)
    → char_at_end (at_field before field x rest (length before + length field)) ≡ ok x
unfolding char_at_end
char_at_end_field before field x rest =
    let outer = length-append before (field ++ x ∷ rest) in
    let inner = length-append field (x ∷ rest) in
    rw (char_at_inside (before ++ (field ++ x ∷ rest)) (length before + length field) (omega arith))
      (rw (byte_at-append before (field ++ x ∷ rest) (length field))
        (rw (byte_at_here field x rest)))

-- Behind `skip`, the remainder is what follows the byte that ends the field.
remainder-skip_field :
    (before field : Bytes) (x : ℕ) (rest : Bytes)
    → Fits (before ++ (field ++ x ∷ rest))
    → remainder (skip (at_field before field x rest (length before + length field))) ≡ ok rest
unfolding remainder skip
remainder-skip_field before field x rest f =
    let outer = length-append before (field ++ x ∷ rest) in
    let inner = length-append field (x ∷ rest) in
    let next : length before + length field + 1 ≡ length before + (length field + 1) =
      omega arith in
    let text = before ++ (field ++ x ∷ rest) in
    rw (size_add_exact (length before + length field) 1 (omega arith)) (
      rw next (
        rw (substr_inside text (length before + (length field + 1)) npos (omega arith)) (
          rw (drop-append_add before (field ++ x ∷ rest) (length field + 1))
            (rw (drop-append_add field (x ∷ rest) 1) (rw (take_enough npos rest (omega arith)))))))

-- `stringTerminateBy`, the byte at its end, and the remainder behind `skip`.
abbrev pub read_field : ℕ → Cursor → Outcome (Bytes × ℕ × Bytes)
read_field x c = do
  (s, c) ← string_terminate_by x c
  end ← char_at_end c
  behind ← remainder (skip c)
  ok (s, end, behind)

-- `intTerminateBy`, and the remainder behind `skip`.
abbrev pub read_number : ℕ → Cursor → Outcome (ℤ × Bytes)
read_number x c = do (i, c) ← int_terminate_by x c; behind ← remainder (skip c); ok (i, behind)

-- `stringTerminateBy` on a field that ends at a byte which it lacks, behind any bytes that were read,
-- returns the field; `charAtEnd` then gives the byte, and `skip` leaves what follows it as the remainder.
pub string_terminate_by-skip :
    (before field : Bytes) (x : ℕ) (rest : Bytes) (q : ℕ)
    → Lacks x field
    → Fits (before ++ (field ++ x ∷ rest))
    → read_field x (at_field before field x rest q) ≡ ok (field, x, rest)
string_terminate_by-skip before field x rest q h f =
    rw (string_terminate_by_field before field x rest q h f)
      (rw (char_at_end_field before field x rest) (rw (remainder-skip_field before field x rest f)))

-- `intTerminateBy` on a printed unsigned number below 2 ^ 63 that ends at a byte other than a digit
-- returns the number, and `skip` leaves what follows the byte as the remainder.
pub int_terminate_by-print_unsigned :
    (before : Bytes) (n x : ℕ) (rest : Bytes) (q : ℕ)
    → n < 2 ^ 63
    → ¬ Digit x
    → Fits (before ++ (print_unsigned n ++ x ∷ rest))
    → read_number x (at_field before (print_unsigned n) x rest q) ≡ ok (pos n, rest)
int_terminate_by-print_unsigned before n x rest q h k f =
    rw (int_terminate_by_field before (print_unsigned n) x rest q (print_unsigned-Lacks x n k) f) (
      rw (strtol-print_unsigned n h) (rw (remainder-skip_field before (print_unsigned n) x rest f)))
