-- ===== src/Tests/Crypto.antt =====
-- pkg/crypto on one key, with stand-ins for SHA-256 and Ed25519.
use mathlib.Core.Option.{Option, some}
use libreseed.Prelude.{◌≡◌, ◌≢◌, ◌↔◌, refl, [], ok, err, length}
use libreseed.Text.{Bytes, codes}
use libreseed.Crypto.Keys.{PublicKey}
use libreseed.Crypto.Signer.{
  Signature, algorithm_ed25519, sign, bad_key_panic, verify, verify_dual_signature,
}
use libreseed.Crypto.Verifying.{Accepted, verify_dual_signature_iff, verify_panics_iff}
use libreseed.Tests.Samples.{sample_prims, sample_key, sample_signature, sixty_four, sixteen}

abbrev message : Bytes
message = codes "manifest"

abbrev short_key : PublicKey
short_key = record { algorithm = codes "ed25519"; key_bytes = sixteen 3 }

verify_dual_signature_iff_example :
    (verify_dual_signature sample_prims message sample_key
        (some sample_signature)
        short_key
        (some sample_signature)
      ≡ ok tt)
    ↔ (((c : Signature) × (◌≡◌ {A = Option Signature} (some sample_signature) (some c))
          × Accepted sample_prims sample_key message c)
        × ((m : Signature) × (◌≡◌ {A = Option Signature} (some sample_signature) (some m))
            × Accepted sample_prims short_key message m))
verify_dual_signature_iff_example =
    verify_dual_signature_iff sample_prims message sample_key short_key (some sample_signature)
      (some sample_signature)

verify_panics_iff_example :
    (verify sample_prims short_key message (some sample_signature) ≡ err bad_key_panic) ↔ (
      (short_key.key_bytes ≢ [])
      × (length short_key.key_bytes ≢ 32)
      × (sample_signature.algorithm ≡ algorithm_ed25519)
      × (length sample_signature.signed_data ≡ 64))
verify_panics_iff_example = verify_panics_iff sample_prims message short_key sample_signature

sample_signed : sign sample_prims (sixty_four 1) sample_key message 4 ≡ ok sample_signature
unfolding sign
sample_signed = refl
