-- ===== src/Crypto/KeyManager/Pairs.antt =====
-- Key pairs: what `bytesEqual` compares and what the checks of `LoadKeys` accept.
use libreseed.Prelude.{
  ◌≡◌, ◌↔◌, refl, true, [], ◌∷◌, arith, length, drop, All, Option-cases, inl, inr, ok,
}
use libreseed.Text.{Bytes, IsByte}
use libreseed.Text.Hex.{encode, decode, decode-encode}
use libreseed.Crypto.KeyManager.{equal_each, bytes_equal, validate_pair, check_pair}

-- A private key of 64 bytes whose second half is the public key.
pub record IsPair (private_key public_key : Bytes) : Type 0 where
  pub private_size : length private_key ≡ 64
  pub public_size : length public_key ≡ 32
  pub derived : drop 32 private_key ≡ public_key

equal_each_self : (a : Bytes) → equal_each a a ≡ true
unfolding equal_each
equal_each_self [] = refl
equal_each_self (x ∷ a) = ground (arith, equal_each_self a)

equal_each-eq : (a b : Bytes) → length a ≡ length b → equal_each a b ≡ true → a ≡ b
unfolding equal_each
equal_each-eq [] [] h e = refl
equal_each-eq [] (y ∷ b) h e = absurd (omega (arith, h))
equal_each-eq (x ∷ a) [] h e = absurd (omega (arith, h))
equal_each-eq (x ∷ a) (y ∷ b) h e =
    let heads : x ≡ y = ground arith in
    let tails : a ≡ b = equal_each-eq a b (omega (arith, h)) (ground arith) in cc

-- `bytesEqual` holds exactly of two slices with the same bytes.
pub bytes_equal_iff : (a b : Bytes) → (bytes_equal a b ≡ true) ↔ (a ≡ b)
unfolding bytes_equal
bytes_equal_iff a b = (
  λ h. equal_each-eq a b (ground arith) (ground arith),
  λ e. rw⁻¹ e (ground (arith, equal_each_self a)),
)

validate_pair-ok :
    (p q : Bytes) (keys : Bytes × Bytes)
    → validate_pair p q ≡ ok keys
    → (keys ≡ (p, q)) × IsPair p q
unfolding validate_pair
validate_pair-ok p q keys h = (
  ground arith,
  record {
    private_size = ground arith;
    public_size = ground arith;
    derived = (bytes_equal_iff (drop 32 p) q).0 (ground arith);
  },
)

validate_pair_of : (p q : Bytes) → IsPair p q → validate_pair p q ≡ ok (p, q)
unfolding validate_pair
validate_pair_of p q v =
    rw (v.private_size, v.public_size, (bytes_equal_iff (drop 32 p) q).1 v.derived) refl

-- What the checks accept is a pair.
pub check_pair-IsPair :
    (a b : Bytes) (keys : Bytes × Bytes) → check_pair a b ≡ ok keys → IsPair keys.0 keys.1
unfolding check_pair
check_pair-IsPair a b keys h = elim (Option-cases (decode a)) [
  | inl q ↦ absurd (ground arith)
  | inr (p, q) ↦ elim (Option-cases (decode b)) [
    | inl r ↦ absurd (ground arith)
    | inr (s, r) ↦ let (e, v) = validate_pair-ok p s keys (ground arith) in rw e v
  ]
]

-- A pair of keys passes the checks when it is read back from hexadecimal.
pub check_pair-encode :
    (p q : Bytes)
    → All IsByte p
    → All IsByte q
    → IsPair p q
    → check_pair (encode p) (encode q) ≡ ok (p, q)
unfolding check_pair
check_pair-encode p q bp bq v = rw (decode-encode p bp, decode-encode q bq) (validate_pair_of p q v)
