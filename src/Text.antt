-- ===== src/Text.antt =====
-- Go's strings and byte slices as lists of bytes, and the functions of strings, filepath and
-- encoding/hex that the program uses on them.
pub mod Hex
pub mod Decimal
pub mod Trim
use Prim.Native.Char.{code}
use Prim.Native.String.{String}
use libreseed.Prelude.{
  ℕ, ◌≡◌, ◌≢◌, ◌↔◌, refl, sym, Bool, true, false, List, [], ◌∷◌, arith, ◌==◌, ◌<◌, All, ℕ_discrete,
  Option, none, some, leb, ◌&&◌, ◌-◌, ◌+◌, if◌then◌else◌,
}

abbrev pub Bytes : Type 0
Bytes = List ℕ

-- The bytes of an ASCII literal.
abbrev pub codes : String → Bytes
codes String.[] = []
codes (String.◌∷◌ c s) = code c ∷ codes s

pub head-eq : (x y : ℕ) (xs ys : Bytes) → ◌≡◌ {A = Bytes} (x ∷ xs) (y ∷ ys) → x ≡ y
head-eq x y xs ys e = ground arith

pub tail-eq : (x y : ℕ) (xs ys : Bytes) → ◌≡◌ {A = Bytes} (x ∷ xs) (y ∷ ys) → xs ≡ ys
tail-eq x y xs ys e = ground arith

pub cons-eq : (x y : ℕ) (xs ys : Bytes) → x ≡ y → xs ≡ ys → ◌≡◌ {A = Bytes} (x ∷ xs) (y ∷ ys)
cons-eq x y xs ys p q = cc

pub nil-ne-cons : (y : ℕ) (ys : Bytes) → ◌≢◌ {A = Bytes} [] (y ∷ ys)
nil-ne-cons y ys e = cc

unfoldable pub bytes_discrete : Discrete Bytes
unfolding ℕ_discrete
bytes_discrete [] [] = yes refl
bytes_discrete [] (y ∷ ys) = no (nil-ne-cons y ys)
bytes_discrete (x ∷ xs) [] = no (λ e. nil-ne-cons x xs (sym e))
bytes_discrete (x ∷ xs) (y ∷ ys) = elim (ℕ_discrete x y) [
  | yes p ↦ elim (bytes_discrete xs ys) [
    | yes q ↦ yes (cons-eq x y xs ys p q)
    | no q ↦ no (λ e. q (tail-eq x y xs ys e))
  ]
  | no p ↦ no (λ e. p (head-eq x y xs ys e))
]

abbrev is_yes : {P : Type 0} → Dec P → Bool
is_yes (yes _) = true
is_yes (no _) = false

-- `a == b` on strings.
unfoldable pub bytes_eq : Bytes → Bytes → Bool
unfolding bytes_discrete
bytes_eq a b = is_yes (bytes_discrete a b)

is_yes_iff : {P : Type 0} (d : Dec P) → (is_yes d ≡ true) ↔ P
is_yes_iff (yes p) = (λ _. p, λ _. refl)
is_yes_iff (no n) = (λ h. absurd (cc), λ p. absurd (n p))

-- `filepath.IsAbs` on Unix.
unfoldable pub is_abs : Bytes → Bool
is_abs [] = false
is_abs (c ∷ s) = c == b'/'

abbrev pub IsByte : ℕ → Type 0
IsByte b = b < 256

pub bytes_eq_iff : (a b : Bytes) → (bytes_eq a b ≡ true) ↔ (a ≡ b)
unfolding bytes_eq
bytes_eq_iff a b = is_yes_iff (bytes_discrete a b)
