-- ===== src/Std/Number/Digits.antt =====
-- The digits that `<<` prints for an unsigned number, as `strtol` reads them.
use aprs_wx.Prelude.{
  All, All-append, Bool-cases, Bytes, [], arith, false, inl, inr, lt→ltb, ltb, ltb→lt, ltb-false,
  pos, refl, suc, zero, ℕ, ◌%◌, ◌*◌, ◌++◌, ◌+◌, ◌-◌, ◌/◌, ◌<◌, ◌∷◌, ◌≡◌, ◌≤◌, ◌^◌,
}
use aprs_wx.Std.Number.{
  after_spaces, decimal, digits_value, is_digit, is_space, print_unsigned, strtol, strtol_digits,
  strtol_signed,
}
use aprs_wx.Std.Text.{c_string}
use aprs_wx.Std.Text.Access.{Lacks}

abbrev pub Digit : ℕ → Type 0
Digit c = (b'0' ≤ c) × (c ≤ b'9')

last-Digit : (n : ℕ) → Digit (b'0' + n % 10)
last-Digit n = (omega arith, omega arith)

decimal-Digit : (fuel n : ℕ) → All Digit (decimal fuel n)
decimal-Digit zero n = _
decimal-Digit (suc fuel) n = elim (Bool-cases (ltb n 10)) [
  | inl e ↦ rw e (last-Digit n, _)
  | inr e ↦ rw e (
      All-append Digit (decimal fuel (n / 10)) ((b'0' + n % 10) ∷ []) (decimal-Digit fuel (n / 10))
        (last-Digit n, _))
]

-- One more digit behind a run of digits.
digits_value-last :
    (acc : ℕ) (s : Bytes) (c : ℕ)
    → All Digit s
    → Digit c
    → digits_value acc (s ++ c ∷ []) ≡ digits_value acc s * 10 + (c - b'0')
unfolding digits_value is_digit
digits_value-last acc [] c h k = ground arith
digits_value-last acc (x ∷ s) c h k =
    ground (arith, digits_value-last (acc * 10 + (x - b'0')) s c h.1 k, h.0)

digits_value-decimal : (fuel n : ℕ) → n < fuel → digits_value 0 (decimal fuel n) ≡ n
unfolding digits_value
digits_value-decimal zero n h = absurd (omega arith)
digits_value-decimal (suc fuel) n h =
    let front = decimal fuel (n / 10) in
    elim (Bool-cases (ltb n 10)) [
      | inl e ↦
          let small : n < 10 = ltb→lt n 10 e in
          rw e (rw (digits_value-last 0 [] (b'0' + n % 10) _ (last-Digit n)) (omega arith))
      | inr e ↦
          let large : 10 ≤ n = ltb-false n 10 e in
          rw e (
            rw
              (digits_value-last 0 front (b'0' + n % 10) (decimal-Digit fuel (n / 10))
                (last-Digit n))
              (rw (digits_value-decimal fuel (n / 10) (omega arith)) (omega arith)))
    ]

c_string_digits : (s : Bytes) → All Digit s → c_string s ≡ s
unfolding c_string
c_string_digits [] h = refl
c_string_digits (x ∷ s) h = ground (arith, c_string_digits s h.1, h.0)

strtol_digits_small :
    (s : Bytes) → digits_value 0 s < 2 ^ 63 → strtol_digits false s ≡ pos (digits_value 0 s)
unfolding strtol_digits
strtol_digits_small s h = rw (lt→ltb (digits_value 0 s) (2 ^ 63) h)

strtol_signed-Digit :
    (x : ℕ) (s : Bytes) → Digit x → strtol_signed (x ∷ s) ≡ strtol_digits false (x ∷ s)
unfolding strtol_signed
strtol_signed-Digit x s h = ground (arith, h)

after_spaces-Digit : (x : ℕ) (s : Bytes) → Digit x → after_spaces (x ∷ s) ≡ x ∷ s
unfolding after_spaces is_space
after_spaces-Digit x s h = ground (arith, h)

-- `strtol` on a text of digits alone.
strtol_digits_text :
    (s : Bytes) → All Digit s → digits_value 0 s < 2 ^ 63 → strtol s ≡ pos (digits_value 0 s)
unfolding strtol c_string
strtol_digits_text [] h k = refl
strtol_digits_text (x ∷ s) h k = rw (c_string_digits (x ∷ s) h) (
    rw (after_spaces-Digit x s h.0)
      (rw (strtol_signed-Digit x s h.0) (strtol_digits_small (x ∷ s) k)))

-- `strtol` reads back what `<<` prints for an unsigned number.
pub strtol-print_unsigned : (n : ℕ) → n < 2 ^ 63 → strtol (print_unsigned n) ≡ pos n
strtol-print_unsigned n h =
    let same = digits_value-decimal (n + 1) n (omega arith) in
    rw (strtol_digits_text (print_unsigned n) (decimal-Digit (n + 1) n) (rw same h)) (rw same)

digits_lack : (x : ℕ) → ¬ Digit x → (s : Bytes) → All Digit s → Lacks x s
digits_lack x h [] k = _
digits_lack x h (y ∷ s) k = (λ e. h (rw (← e) k.0), digits_lack x h s k.1)

-- A byte that is no digit does not stand in a printed number.
pub print_unsigned-Lacks : (x n : ℕ) → ¬ Digit x → Lacks x (print_unsigned n)
print_unsigned-Lacks x n h = digits_lack x h (print_unsigned n) (decimal-Digit (n + 1) n)
