-- ===== src/Text/Decimal.antt =====
-- Decimal numbers: `%d` of a number that is not negative, and strconv.ParseInt with base 10 and 64
-- bits, which is strconv.Atoi. The result is the bit pattern of an int64.
use libreseed.Prelude.{
  ℕ, zero, suc, ◌+◌, ◌-◌, ◌*◌, ◌/◌, ◌%◌, ◌^◌, ◌≤◌, ◌<◌, ◌≡◌, refl, Bool, true, false, ◌&&◌, Option,
  none, some, [], ◌∷◌, ◌++◌, arith, ltb, leb, ◌==◌, word, if◌then◌else◌, All, Bool-cases, inl, inr,
  is_empty, All-append, ◌∙◌, ap,
}
use libreseed.Text.{Bytes}

-- The digits of a number, with fuel for so many.
unfoldable pub show_digits : ℕ → ℕ → Bytes
show_digits zero n = []
show_digits (suc fuel) n = elim (ltb n 10) [
  | true ↦ (48 + n) ∷ []
  | false ↦ show_digits fuel (n / 10) ++ (48 + n % 10) ∷ []
]

-- Twenty digits are enough for 64 bits.
unfoldable pub show_nat : ℕ → Bytes
unfolding show_digits
show_nat n = show_digits 20 n

abbrev pub is_digit : ℕ → Bool
is_digit c = leb 48 c && leb c 57

unfoldable pub read_digits : ℕ → Bytes → Option ℕ
read_digits acc [] = some acc
read_digits acc (c ∷ s) =
    let rest = read_digits (acc * 10 + (c - 48)) s in if is_digit c then rest else none

unfoldable pub read_magnitude : Bytes → Option ℕ
unfolding read_digits
read_magnitude [] = none
read_magnitude (c ∷ s) = read_digits 0 (c ∷ s)

abbrev pub at_most : ℕ → Option ℕ → Option ℕ
at_most bound none = none
at_most bound (some n) = if leb n bound then some n else none

abbrev pub negated : Option ℕ → Option ℕ
negated none = none
negated (some n) = some ((word - n) % word)

unfoldable pub parse_int : Bytes → Option ℕ
unfolding read_magnitude
parse_int [] = none
parse_int (c ∷ s) =
    if c == b'+'
    then at_most (2 ^ 63 - 1) (read_magnitude s)
    else if c == b'-'
    then negated (at_most (2 ^ 63) (read_magnitude s))
    else at_most (2 ^ 63 - 1) (read_magnitude (c ∷ s))

abbrev pub IsDigit : ℕ → Type 0
IsDigit c = (48 ≤ c) × (c ≤ 57)

read_digits-append :
    (s : Bytes) (acc v d : ℕ)
    → d < 10
    → read_digits acc s ≡ some v
    → read_digits acc (s ++ (48 + d) ∷ []) ≡ some (v * 10 + d)
unfolding read_digits
read_digits-append [] acc v d h e = ground arith
read_digits-append (c ∷ s) acc v d h e =
    ground (arith, read_digits-append s (acc * 10 + (c - 48)) v d h)

show_small : (fuel n : ℕ) → ltb n 10 ≡ true → show_digits (suc fuel) n ≡ (48 + n) ∷ []
unfolding show_digits
show_small fuel n h = rw (h, show_digits) refl

show_large :
    (fuel n : ℕ)
    → ltb n 10 ≡ false
    → show_digits (suc fuel) n ≡ show_digits fuel (n / 10) ++ (48 + n % 10) ∷ []
unfolding show_digits
show_large fuel n h = rw (h, show_digits) refl

pub show_digits-IsDigit : (fuel n : ℕ) → All IsDigit (show_digits fuel n)
unfolding show_digits
show_digits-IsDigit zero n = tt
show_digits-IsDigit (suc fuel) n = elim (Bool-cases (ltb n 10)) [
  | inl h ↦ rw (show_small fuel n h) (ground arith, tt)
  | inr h ↦ rw (show_large fuel n h) (
      All-append IsDigit (show_digits fuel (n / 10)) ((48 + n % 10) ∷ [])
        (show_digits-IsDigit fuel (n / 10)) (omega arith, tt))
]

pow_suc : (fuel : ℕ) → 10 ^ suc fuel ≡ 10 * 10 ^ fuel
pow_suc fuel = omega arith

-- A number below the power of ten is read back, if there is fuel for so many digits.
pub read_digits-show :
    (fuel n : ℕ) → n < 10 ^ suc fuel → read_digits 0 (show_digits (suc fuel) n) ≡ some n
unfolding read_digits
read_digits-show zero n h =
    let q : ltb n 10 ≡ true = ground arith in rw (show_small 0 n q) (ground arith)
read_digits-show (suc fuel) n h = elim (Bool-cases (ltb n 10)) [
  | inl q ↦ rw (show_small (suc fuel) n q) (ground arith)
  | inr q ↦
      let rest = read_digits-show fuel (n / 10) (omega (arith, h, pow_suc (suc fuel))) in
      rw (show_large (suc fuel) n q) (
        read_digits-append (show_digits (suc fuel) (n / 10)) 0 (n / 10) (n % 10) (omega arith) rest
        ∙ ap some (omega arith))
]

parse_int-of_digits :
    (s : Bytes) (n : ℕ)
    → All IsDigit s
    → is_empty s ≡ false
    → read_digits 0 s ≡ some n
    → n < 2 ^ 63
    → parse_int s ≡ some n
unfolding parse_int read_magnitude
parse_int-of_digits [] n a e r h = absurd (cc e)
parse_int-of_digits (c ∷ s) n (d, a) e r h =
    let plus : (c == b'+') ≡ false = ground arith in
    let minus : (c == b'-') ≡ false = ground arith in rw (plus, minus, r) (ground arith)

is_empty-append : (s : Bytes) (c : ℕ) → is_empty (s ++ c ∷ []) ≡ false
is_empty-append [] c = refl
is_empty-append (d ∷ s) c = refl

is_empty-show : (fuel n : ℕ) → is_empty (show_digits (suc fuel) n) ≡ false
is_empty-show fuel n = elim (Bool-cases (ltb n 10)) [
  | inl q ↦ rw (show_small fuel n q) refl
  | inr q ↦ rw (show_large fuel n q) (is_empty-append (show_digits fuel (n / 10)) (48 + n % 10))
]

-- A number that fits an int64 is read back from its decimal digits.
pub parse_int-show : (n : ℕ) → n < 2 ^ 63 → parse_int (show_nat n) ≡ some n
unfolding show_nat
parse_int-show n h =
    parse_int-of_digits (show_digits 20 n) n (show_digits-IsDigit 20 n) (is_empty-show 19 n)
      (read_digits-show 19 n (omega (arith, h))) h

pub show_nat-IsDigit : (n : ℕ) → All IsDigit (show_nat n)
unfolding show_nat
show_nat-IsDigit n = show_digits-IsDigit 20 n

pub is_empty-show_nat : (n : ℕ) → is_empty (show_nat n) ≡ false
unfolding show_nat
is_empty-show_nat n = is_empty-show 19 n
