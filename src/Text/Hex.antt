-- ===== src/Text/Hex.antt =====
-- encoding/hex: `EncodeToString` writes two lower-case digits for each byte, and `DecodeString`
-- takes digits of either case and fails on any other byte and on an odd length.
use libreseed.Prelude.{
  ℕ, ◌≡◌, refl, Bool, true, false, [], ◌∷◌, arith, ◌<◌, All, Option, none, some, leb, ltb, ◌&&◌,
  ◌-◌, ◌+◌, ◌*◌, ◌/◌, ◌%◌, if◌then◌else◌, length,
}
use libreseed.Text.{Bytes, IsByte}

-- The digit of a nibble.
unfoldable pub to_digit : ℕ → ℕ
to_digit n = if ltb n 10 then b'0' + n else b'a' + (n - 10)

unfoldable pub from_digit : ℕ → Option ℕ
from_digit c =
    if leb b'0' c && leb c b'9'
    then some (c - b'0')
    else if leb b'a' c && leb c b'f'
    then some (c - b'a' + 10)
    else if leb b'A' c && leb c b'F'
    then some (c - b'A' + 10)
    else none

unfoldable pub encode : Bytes → Bytes
unfolding to_digit
encode [] = []
encode (b ∷ s) = to_digit (b / 16) ∷ to_digit (b % 16) ∷ encode s

-- One byte in front of what the rest decodes to.
abbrev pub cons_pair : Option ℕ → Option ℕ → Option Bytes → Option Bytes
cons_pair (some h) (some l) (some rest) = some ((16 * h + l) ∷ rest)
cons_pair _ _ _ = none

unfoldable pub decode : Bytes → Option Bytes
unfolding from_digit
decode [] = some []
decode (c ∷ []) = none
decode (c ∷ d ∷ s) = cons_pair (from_digit c) (from_digit d) (decode s)

-- `_, err := hex.DecodeString(s); err == nil`.
unfoldable pub is_hex : Bytes → Bool
unfolding decode
is_hex s = elim (decode s) [ none ↦ false | some _ ↦ true ]

pub from_digit-to_digit : (n : ℕ) → n < 16 → from_digit (to_digit n) ≡ some n
unfolding from_digit to_digit
from_digit-to_digit n h = ground arith

pub decode-encode : (s : Bytes) → All IsByte s → decode (encode s) ≡ some s
unfolding decode encode
decode-encode [] a = refl
decode-encode (b ∷ s) a = ground (
  arith,
  from_digit-to_digit (b / 16) (omega arith),
  from_digit-to_digit (b % 16) (omega arith),
  decode-encode s a.1,
)

pub length-encode : (s : Bytes) → length (encode s) ≡ 2 * length s
unfolding encode
length-encode [] = refl
length-encode (b ∷ s) = omega (arith, length-encode s)

pub is_hex-encode : (s : Bytes) → All IsByte s → is_hex (encode s) ≡ true
unfolding is_hex
is_hex-encode s a = rw (decode-encode s a, is_hex)

pub length-cons_pair :
    (h l : Option ℕ) (t : Option Bytes) (s r : Bytes)
    → cons_pair h l t ≡ some r
    → ((u : Bytes) → t ≡ some u → 2 * length u ≡ length s)
    → 2 * length r ≡ length s + 2
length-cons_pair (some h) (some l) (some u) s r e k = ground (arith, k u refl)
length-cons_pair (some h) (some l) none s r e k = absurd (cc)
length-cons_pair (some h) none t s r e k = absurd (cc)
length-cons_pair none l t s r e k = absurd (cc)

pub length-decode : (s r : Bytes) → decode s ≡ some r → 2 * length r ≡ length s
unfolding decode
length-decode [] r e = ground arith
length-decode (c ∷ []) r e = absurd (cc)
length-decode (c ∷ d ∷ s) r e =
    omega (arith, length-cons_pair _ _ (decode s) s r e (λ u q. length-decode s u q))
