-- ===== src/Daemon/PackageInfo.antt =====
-- pkg/daemon/package_manager.go: the metadata of a package and its validation. Strings are bytes;
-- FileSize is an int64 bit pattern; a time is nanoseconds since the zero time.
use libreseed.Prelude.{
  ℕ, ◌≡◌, ◌<◌, ◌↔◌, ◌≢◌, refl, Bool, true, not, Option, none, some, [], arith, ◌==◌, is_empty,
  length, Result, ok, err, fail_if, ◌>>◌, signed_lt, signed_lt_pos_iff, word, ◌%◌, ◌^◌, subst, sym,
}
use libreseed.Text.{Bytes, is_abs}
use libreseed.Text.Hex.{is_hex}

pub record PackageInfo : Type 0 where
  pub package_id : Bytes
  pub name : Bytes
  pub version : Bytes
  pub description : Bytes
  pub file_path : Bytes
  pub file_hash : Bytes
  pub file_size : ℕ
  pub created_at : ℕ
  pub creator_fingerprint : Bytes
  pub manifest_signature : Bytes
  pub maintainer_fingerprint : Bytes
  pub maintainer_manifest_signature : Bytes
  pub announced_to_dht : Bool
  pub last_announced : ℕ

-- The errors of `validatePackageInfo`, in the order of its tests.
pub data InfoError : Type 0 where
  info_is_nil id_required id_length id_hex name_required version_required description_required
        path_required path_not_absolute hash_required hash_length hash_hex size_not_positive
        created_at_required creator_required creator_length creator_hex signature_required
        signature_hex maintainer_required maintainer_length maintainer_hex
        maintainer_signature_required maintainer_signature_hex :
      InfoError

unfoldable pub validate_fields : PackageInfo → Result InfoError (Unit {0})
validate_fields info = do
  fail_if (is_empty info.package_id) id_required
  fail_if (not (length info.package_id == 64)) id_length
  fail_if (not (is_hex info.package_id)) id_hex
  fail_if (is_empty info.name) name_required
  fail_if (is_empty info.version) version_required
  fail_if (is_empty info.description) description_required
  fail_if (is_empty info.file_path) path_required
  fail_if (not (is_abs info.file_path)) path_not_absolute
  fail_if (is_empty info.file_hash) hash_required
  fail_if (not (length info.file_hash == 64)) hash_length
  fail_if (not (is_hex info.file_hash)) hash_hex
  fail_if (not (signed_lt 0 info.file_size)) size_not_positive
  fail_if (info.created_at == 0) created_at_required
  fail_if (is_empty info.creator_fingerprint) creator_required
  fail_if (not (length info.creator_fingerprint == 16)) creator_length
  fail_if (not (is_hex info.creator_fingerprint)) creator_hex
  fail_if (is_empty info.manifest_signature) signature_required
  fail_if (not (is_hex info.manifest_signature)) signature_hex
  fail_if (is_empty info.maintainer_fingerprint) maintainer_required
  fail_if (not (length info.maintainer_fingerprint == 16)) maintainer_length
  fail_if (not (is_hex info.maintainer_fingerprint)) maintainer_hex
  fail_if (is_empty info.maintainer_manifest_signature) maintainer_signature_required
  fail_if (not (is_hex info.maintainer_manifest_signature)) maintainer_signature_hex

-- `validatePackageInfo`: a nil pointer is an error too.
unfoldable pub validate_package_info : Option PackageInfo → Result InfoError (Unit {0})
unfolding validate_fields
validate_package_info none = err info_is_nil
validate_package_info (some info) = validate_fields info

-- A hex text of a given number of digits.
abbrev pub IsHexOf : ℕ → Bytes → Type 0
IsHexOf n s = (length s ≡ n) × (is_hex s ≡ true)

-- What the fields of an accepted package are.
pub record IsWellFormed (info : PackageInfo) : Type 0 where
  pub id : IsHexOf 64 info.package_id
  pub named : info.name ≢ []
  pub versioned : info.version ≢ []
  pub described : info.description ≢ []
  pub absolute : is_abs info.file_path ≡ true
  pub hash : IsHexOf 64 info.file_hash
  pub size : (0 < info.file_size % word) × (info.file_size % word < 2 ^ 63)
  pub dated : info.created_at ≢ 0
  pub creator : IsHexOf 16 info.creator_fingerprint
  pub signed : info.manifest_signature ≢ []
  pub signed_hex : is_hex info.manifest_signature ≡ true
  pub maintainer : IsHexOf 16 info.maintainer_fingerprint
  pub co_signed : info.maintainer_manifest_signature ≢ []
  pub co_signed_hex : is_hex info.maintainer_manifest_signature ≡ true

pub sound : (info : PackageInfo) → validate_fields info ≡ ok tt → IsWellFormed info
unfolding validate_fields
sound info h = ground (arith, signed_lt_pos_iff info.file_size)

complete : (info : PackageInfo) → IsWellFormed info → validate_fields info ≡ ok tt
unfolding validate_fields is_abs
complete info w = ground (arith, signed_lt_pos_iff info.file_size)

some-eq : {a b : PackageInfo} → some a ≡ some b → a ≡ b
some-eq h = cc

-- `validatePackageInfo` accepts exactly the packages whose id and hash are 64 hex digits, whose
-- fingerprints are 16, whose signatures are hex texts that are not empty, with a name, version and
-- description, an absolute path, a positive size and a time; it never accepts nil.
pub validate_package_info_iff :
    (o : Option PackageInfo)
    → (validate_package_info o ≡ ok tt)
      ↔ ((info : PackageInfo) × (o ≡ some info) × IsWellFormed info)
unfolding validate_package_info
validate_package_info_iff none = (λ h. absurd (cc), λ h. absurd (cc (h.1)))
validate_package_info_iff (some info) = (
  λ h. (info, refl, sound info h),
  λ h. complete info (subst IsWellFormed (some-eq (sym h.1)) h.2),
)
