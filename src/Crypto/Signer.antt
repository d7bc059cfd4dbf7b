-- ===== src/Crypto/Signer.antt =====
-- pkg/crypto/signer.go: signatures with their metadata, and the check of one or two of them.
use libreseed.Prelude.{
  ℕ, Bool, true, false, not, Option, none, some, [], ◌==◌, is_empty, length, Result, ok, err,
  fail_if, wrap_err, ◌>>◌,
}
use libreseed.Text.{Bytes, codes, bytes_eq}
use libreseed.Crypto.Keys.{Primitives, PublicKey, verify_raw}

pub record Signature : Type 0 where
  pub algorithm : Bytes
  pub signed_by : PublicKey
  pub signed_data : Bytes
  pub signed_at : ℕ

abbrev pub algorithm_ed25519 : Bytes
algorithm_ed25519 = codes "Ed25519"

pub data SignError : Type 0 where
  private_key_size sign_nil_public_key : SignError

-- `Sign`, at a clock reading.
unfoldable pub sign : Primitives → Bytes → PublicKey → Bytes → ℕ → Result SignError Signature
sign prims private_key public_key message now = do
  fail_if (not (length private_key == 64)) private_key_size
  fail_if (is_empty public_key.key_bytes) sign_nil_public_key
  ok (record {
    algorithm = algorithm_ed25519;
    signed_by = public_key;
    signed_data = prims.sign private_key message;
    signed_at = now;
  })

-- The errors of `Verify`; `bad_key_panic` is the panic of crypto/ed25519.
pub data VerifyError : Type 0 where
  nil_signature nil_public_key unsupported_algorithm invalid_signature_length invalid_signature
        bad_key_panic :
      VerifyError

abbrev pub decide_raw : Option Bool → Result VerifyError (Unit {0})
decide_raw none = err bad_key_panic
decide_raw (some true) = ok tt
decide_raw (some false) = err invalid_signature

-- `Verify`: `none` is a nil signature.
unfoldable pub verify :
    Primitives → PublicKey → Bytes → Option Signature → Result VerifyError (Unit {0})
unfolding verify_raw
verify prims public_key message none = err nil_signature
verify prims public_key message (some s) = do
  fail_if (is_empty public_key.key_bytes) nil_public_key
  fail_if (not (bytes_eq s.algorithm algorithm_ed25519)) unsupported_algorithm
  fail_if (not (length s.signed_data == 64)) invalid_signature_length
  decide_raw (verify_raw prims public_key.key_bytes message s.signed_data)

pub data DualError : Type 0 where
  creator_failed maintainer_failed : VerifyError → DualError

-- `VerifyDualSignature`.
unfoldable pub verify_dual_signature :
    Primitives
    → Bytes
    → PublicKey
    → Option Signature
    → PublicKey
    → Option Signature
    → Result DualError (Unit {0})
verify_dual_signature prims message creator creator_sig maintainer maintainer_sig = do
  wrap_err creator_failed (verify prims creator message creator_sig)
  wrap_err maintainer_failed (verify prims maintainer message maintainer_sig)

-- `VerifyCreatorSignature` and `VerifyMaintainerSignature`.
unfoldable pub verify_creator_signature :
    Primitives → Bytes → PublicKey → Option Signature → Result DualError (Unit {0})
verify_creator_signature prims message creator s =
    wrap_err creator_failed (verify prims creator message s)

unfoldable pub verify_maintainer_signature :
    Primitives → Bytes → PublicKey → Option Signature → Result DualError (Unit {0})
verify_maintainer_signature prims message maintainer s =
    wrap_err maintainer_failed (verify prims maintainer message s)

pub data FromBytesError : Type 0 where
  from_bytes_length from_bytes_nil_key : FromBytesError

-- `SignatureFromBytes`: the time is the zero time.
unfoldable pub signature_from_bytes : Bytes → PublicKey → Result FromBytesError Signature
signature_from_bytes raw public_key = do
  fail_if (not (length raw == 64)) from_bytes_length
  fail_if (is_empty public_key.key_bytes) from_bytes_nil_key
  ok (record {
    algorithm = algorithm_ed25519;
    signed_by = public_key;
    signed_data = raw;
    signed_at = 0;
  })

-- `Signature.Bytes`: nil for a nil signature.
unfoldable pub signature_bytes : Option Signature → Bytes
signature_bytes none = []
signature_bytes (some s) = s.signed_data
