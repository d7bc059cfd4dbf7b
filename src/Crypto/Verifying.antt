-- ===== src/Crypto/Verifying.antt =====
-- When signatures are accepted.
use libreseed.Prelude.{
  ℕ, ◌≡◌, ◌≢◌, ◌↔◌, refl, sym, true, Option, none, some, [], arith, length, Result, ok, err,
  wrap_err, ◌>>◌, subst,
}
use libreseed.Text.{Bytes, bytes_eq_iff}
use libreseed.Crypto.Keys.{Primitives, PublicKey}
use libreseed.Crypto.Signer.{
  Signature, algorithm_ed25519, sign, bad_key_panic, creator_failed, maintainer_failed, verify,
  verify_dual_signature, signature_from_bytes, signature_bytes,
}

-- What a signature that is accepted is: 64 bytes under the right algorithm, which verify under a
-- key of 32 bytes.
pub record Accepted (prims : Primitives) (public_key : PublicKey) (message : Bytes) (s : Signature)
    : Type 0 where
  pub key : length public_key.key_bytes ≡ 32
  pub algorithm : s.algorithm ≡ algorithm_ed25519
  pub size : length s.signed_data ≡ 64
  pub verified : prims.verify public_key.key_bytes message s.signed_data ≡ true

-- Two checks in a row, with their errors wrapped, pass exactly if both pass.
both_iff :
    {C D E : Type 0} (f : C → E) (g : D → E) (a : Result C (Unit {0})) (b : Result D (Unit {0}))
    → ((wrap_err f a >> wrap_err g b) ≡ ok tt) ↔ ((a ≡ ok tt) × (b ≡ ok tt))
both_iff f g (ok u) (ok v) = (λ _. (refl, refl), λ _. refl)
both_iff f g (ok u) (err e) = (λ h. absurd (cc), λ h. absurd (cc (h.1)))
both_iff f g (err e) b = (λ h. absurd (cc), λ h. absurd (cc (h.0)))

pub some-eq : {a b : Signature} → some a ≡ some b → a ≡ b
some-eq h = cc

module _ (prims : Primitives) (message : Bytes) where
  -- `Verify` accepts exactly a signature that is not nil and is accepted.
  verify_iff :
      (public_key : PublicKey) (o : Option Signature)
      → (verify prims public_key message o ≡ ok tt)
        ↔ ((s : Signature) × (o ≡ some s) × Accepted prims public_key message s)
  unfolding verify
  verify_iff public_key none = (λ h. absurd (cc), λ h. absurd (cc (h.1)))
  verify_iff public_key (some s) = (
    λ h. (s, refl, ground (arith, bytes_eq_iff s.algorithm algorithm_ed25519)),
    λ h. accepted (subst (Accepted prims public_key message) (some-eq (sym h.1)) h.2),
  )
    where
      accepted :
          Accepted prims public_key message s → verify prims public_key message (some s) ≡ ok tt
      accepted h = ground (arith, bytes_eq_iff s.algorithm algorithm_ed25519)

  -- `VerifyDualSignature` accepts exactly if both signatures are there and each is accepted for the
  -- same message under its own key: the right algorithm, 64 bytes that verify, a key of 32 bytes.
  pub verify_dual_signature_iff :
      (creator maintainer : PublicKey) (creator_sig maintainer_sig : Option Signature)
      → (verify_dual_signature prims message creator creator_sig maintainer maintainer_sig ≡ ok tt)
        ↔ (((c : Signature) × (creator_sig ≡ some c) × Accepted prims creator message c)
            × ((m : Signature) × (maintainer_sig ≡ some m) × Accepted prims maintainer message m))
  unfolding verify_dual_signature
  verify_dual_signature_iff creator maintainer creator_sig maintainer_sig =
      let both =
        both_iff creator_failed maintainer_failed (verify prims creator message creator_sig)
          (verify prims maintainer message maintainer_sig) in
      let c = verify_iff creator creator_sig in
      let m = verify_iff maintainer maintainer_sig in
      (λ h. (c.0 (both.0 h).0, m.0 (both.0 h).1), λ h. both.1 (c.1 h.0, m.1 h.1))

  -- `Verify` panics exactly if everything that it checks is right and the key, not empty, does not
  -- have 32 bytes: its own test of the key lets every length but 0 through.
  pub verify_panics_iff :
      (public_key : PublicKey) (s : Signature)
      → (verify prims public_key message (some s) ≡ err bad_key_panic) ↔ (
          (public_key.key_bytes ≢ [])
          × (length public_key.key_bytes ≢ 32)
          × (s.algorithm ≡ algorithm_ed25519)
          × (length s.signed_data ≡ 64))
  unfolding verify
  verify_panics_iff public_key s = (
    λ h. ground (arith, bytes_eq_iff s.algorithm algorithm_ed25519),
    λ h. ground (arith, bytes_eq_iff s.algorithm algorithm_ed25519),
  )

-- What `Sign` signs with a key pair `Verify` accepts, if Ed25519 verifies what it signs with that
-- pair, a signature has 64 bytes and the public key 32.
pub verify-sign :
    (prims : Primitives) (private_key : Bytes) (public_key : PublicKey) (message : Bytes) (now : ℕ)
    (s : Signature)
    → length (prims.sign private_key message) ≡ 64
    → prims.verify public_key.key_bytes message (prims.sign private_key message) ≡ true
    → length public_key.key_bytes ≡ 32
    → sign prims private_key public_key message now ≡ ok s
    → verify prims public_key message (some s) ≡ ok tt
unfolding sign
verify-sign prims private_key public_key message now s size works key e =
    (verify_iff prims message public_key (some s)).1 (s, refl, ground arith)

-- If an Ed25519 signature has 64 bytes, `SignatureFromBytes` rebuilds what `Sign` made from its
-- bytes, but for the time of signing; the rebuilt signature verifies for any key and message
-- exactly as the first does.
pub signature_from_bytes-sign :
    (prims : Primitives) (private_key : Bytes) (public_key other : PublicKey)
    (message message' : Bytes) (now : ℕ) (s : Signature)
    → length (prims.sign private_key message) ≡ 64
    → sign prims private_key public_key message now ≡ ok s
    → (signature_from_bytes (signature_bytes (some s)) public_key ≡ ok (record s { signed_at = 0 }))
      × (verify prims other message' (some (record s { signed_at = 0 }))
          ≡ verify prims other message' (some s))
unfolding sign signature_from_bytes signature_bytes verify
signature_from_bytes-sign prims private_key public_key other message message' now s size e =
    (ground arith, refl)
