-- ===== src/Crypto/Keys.antt =====
-- pkg/crypto/keys.go: public keys and their fingerprints. SHA-256 and Ed25519 are parameters.
use libreseed.Prelude.{
  ℕ, ◌≡◌, ◌↔◌, Bool, true, not, Option, none, some, [], ◌∷◌, arith, ◌==◌, is_empty, length, take,
  All, if◌then◌else◌, Result, ok, err, fail_if, ◌>>◌, ◌++◌, length-take, zero, suc,
}
use libreseed.Text.{Bytes, codes, IsByte}
use libreseed.Text.Hex.{encode, is_hex, length-encode, is_hex-encode}

-- The primitives of crypto/ed25519 and crypto/sha256 that the program calls.
pub record Primitives : Type 0 where
  pub sha256 : Bytes → Bytes
  pub sign : Bytes → Bytes → Bytes
  pub verify : Bytes → Bytes → Bytes → Bool

-- SHA-256 returns 32 bytes.
abbrev pub IsSha256 : Primitives → Type 0
IsSha256 prims = (s : Bytes) → (length (prims.sha256 s) ≡ 32) × All IsByte (prims.sha256 s)

pub record PublicKey : Type 0 where
  pub algorithm : Bytes
  pub key_bytes : Bytes

pub data KeyError : Type 0 where
  key_is_nil key_is_empty key_size : KeyError

-- `NewPublicKey`: `none` is a nil slice.
unfoldable pub new_public_key : Option Bytes → Result KeyError PublicKey
new_public_key none = err key_is_nil
new_public_key (some k) = do
  fail_if (is_empty k) key_is_empty
  fail_if (not (length k == 32)) key_size
  ok (record { algorithm = codes "ed25519"; key_bytes = k })

-- `PublicKey.Fingerprint`: eight bytes of the hash, in hexadecimal.
unfoldable pub fingerprint : Primitives → PublicKey → Bytes
fingerprint prims pk = encode (take 8 (prims.sha256 pk.key_bytes))

-- `PublicKey.Verify`; crypto/ed25519 panics on a key that does not have 32 bytes (`none`).
unfoldable pub verify_raw : Primitives → Bytes → Bytes → Bytes → Option Bool
verify_raw prims k message signature =
    if length k == 32 then some (prims.verify k message signature) else none

-- `PublicKey.String`.
unfoldable pub show_key : Primitives → PublicKey → Bytes
unfolding fingerprint
show_key prims pk = pk.algorithm ++ codes ":" ++ fingerprint prims pk

-- `NewPublicKey` accepts exactly the byte slices of length 32, and keeps their bytes.
pub new_public_key_iff :
    (o : Option Bytes) (pk : PublicKey)
    → (new_public_key o ≡ ok pk)
      ↔ ((o ≡ some pk.key_bytes) × (length pk.key_bytes ≡ 32) × (pk.algorithm ≡ codes "ed25519"))
unfolding new_public_key
new_public_key_iff none pk = (λ h. absurd (cc), λ h. absurd (cc (h.0)))
new_public_key_iff (some k) pk = (λ h. ground arith, λ h. ground arith)

take-All : (n : ℕ) (s : Bytes) → All IsByte s → All IsByte (take n s)
take-All zero s a = tt
take-All (suc n) [] a = tt
take-All (suc n) (b ∷ s) a = (a.0, take-All n s a.1)

-- If SHA-256 returns 32 bytes, a fingerprint is a text of 16 hex digits, whatever the key.
fingerprint_hex :
    (prims : Primitives) (pk : PublicKey)
    → IsSha256 prims
    → (length (fingerprint prims pk) ≡ 16) × (is_hex (fingerprint prims pk) ≡ true)
unfolding fingerprint
fingerprint_hex prims pk sha =
    let hash = prims.sha256 pk.key_bytes in
    let (size, bytes) = sha pk.key_bytes in
    (
      omega (arith, length-encode (take 8 hash), length-take 8 hash),
      is_hex-encode (take 8 hash) (take-All 8 hash bytes),
    )
