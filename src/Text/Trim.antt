-- ===== src/Text/Trim.antt =====
-- strings.TrimSpace on texts whose ends are ASCII, and strings.SplitN at the first colon.
use libreseed.Prelude.{
  ℕ, ◌≡◌, refl, Bool, true, false, not, ◌&&◌, ◌||◌, Option, none, some, [], ◌∷◌, ◌++◌, arith, ◌==◌,
  leb, is_empty, if◌then◌else◌, All,
}
use libreseed.Text.{Bytes}
use libreseed.Text.Decimal.{IsDigit}

-- The white space of ASCII: a tab, a line feed, a vertical tab, a form feed, a carriage return, a
-- space.
abbrev pub is_space : ℕ → Bool
is_space c = (leb 9 c && leb c 13) || c == 32

unfoldable pub trim_left : Bytes → Bytes
trim_left [] = []
trim_left (c ∷ s) = let rest = trim_left s in if is_space c then rest else c ∷ s

unfoldable pub trim_right : Bytes → Bytes
trim_right [] = []
trim_right (c ∷ s) = let rest = trim_right s in if is_empty rest && is_space c then [] else c ∷ rest

unfoldable pub trim_space : Bytes → Bytes
unfolding trim_left trim_right
trim_space s = trim_right (trim_left s)

abbrev pub before : ℕ → Option (Bytes × Bytes) → Option (Bytes × Bytes)
before c none = none
before c (some (a, b)) = some (c ∷ a, b)

-- The texts before and after the first colon, if there is one.
unfoldable pub cut : Bytes → Option (Bytes × Bytes)
cut [] = none
cut (c ∷ s) = let rest = cut s in if c == b':' then some ([], s) else before c rest

-- A text with an end that is not white space.
unfoldable pub ends_well : Bytes → Bool
ends_well [] = false
ends_well (c ∷ []) = not (is_space c)
ends_well (c ∷ d ∷ s) = ends_well (d ∷ s)

pub trim_right-line : (s : Bytes) → ends_well s ≡ true → trim_right (s ++ 10 ∷ []) ≡ s
unfolding trim_right ends_well
trim_right-line [] h = absurd (cc h)
trim_right-line (c ∷ []) h = ground arith
trim_right-line (c ∷ d ∷ s) h = rw (trim_right-line (d ∷ s) h) refl

pub ends_well-append : (a b : Bytes) → ends_well b ≡ true → ends_well (a ++ b) ≡ true
unfolding ends_well
ends_well-append [] b h = h
ends_well-append (c ∷ []) [] h = absurd (cc h)
ends_well-append (c ∷ []) (d ∷ b) h = h
ends_well-append (c ∷ d ∷ a) b h = ends_well-append (d ∷ a) b h

pub ends_well-cons : (c : ℕ) (b : Bytes) → ends_well b ≡ true → ends_well (c ∷ b) ≡ true
unfolding ends_well
ends_well-cons c [] h = absurd (cc h)
ends_well-cons c (d ∷ b) h = h

pub trim_left-digit : (c : ℕ) (s : Bytes) → IsDigit c → trim_left (c ∷ s) ≡ c ∷ s
unfolding trim_left
trim_left-digit c s d = ground arith

pub cut-append : (a b : Bytes) → All IsDigit a → cut (a ++ b':' ∷ b) ≡ some (a, b)
unfolding cut
cut-append [] b h = refl
cut-append (c ∷ a) b (d, h) =
    let colon : (c == b':') ≡ false = ground arith in rw (cut-append a b h, colon) refl
