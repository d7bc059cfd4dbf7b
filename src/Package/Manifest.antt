-- ===== src/Package/Manifest.antt =====
-- pkg/package/manifest.go: the data of a package, and `Validate` of each part. Strings are bytes,
-- sizes are int64 bit patterns, a time is nanoseconds since the zero time.
use libreseed.Prelude.{
  ℕ, suc, Bool, not, ◌&&◌, Option, none, some, List, [], ◌∷◌, ◌++◌, ◌==◌, leb, is_empty, length,
  take, if◌then◌else◌, Result, ok, fail_if, wrap_err, ◌>>◌, signed_lt,
}
use libreseed.Text.{Bytes, codes, bytes_eq}
use libreseed.Text.Hex.{is_hex, encode}
use libreseed.GoMap.{GoMap}
use libreseed.Crypto.Keys.{PublicKey, Primitives}
use libreseed.Crypto.Signer.{Signature}

pub record Dependency : Type 0 where
  pub package_name : Bytes
  pub version_constraint : Bytes
  pub optional : Bool

pub record ConfigSchema : Type 0 where
  pub version : Bytes
  pub external_paths : List Bytes
  pub schema_url : Bytes

pub record FileEntry : Type 0 where
  pub path : Bytes
  pub hash : Bytes
  pub size : ℕ
  pub mode : ℕ

pub record Manifest : Type 0 where
  pub package_name : Bytes
  pub version : Bytes
  pub description : Bytes
  pub creator_pub_key : PublicKey
  pub maintainer_pub_key : PublicKey
  pub dependencies : List Dependency
  pub config_schema : Option ConfigSchema
  pub content_hash : Bytes
  pub content_list : List FileEntry
  pub created_at : ℕ
  pub metadata : GoMap Bytes Bytes

pub record Package : Type 0 where
  pub package_id : Bytes
  pub format_version : Bytes
  pub manifest : Manifest
  pub manifest_signature : Signature
  pub maintainer_manifest_signature : Signature
  pub file_path : Bytes
  pub size_bytes : ℕ

pub data DependencyError : Type 0 where
  name_required constraint_required : DependencyError

unfoldable pub validate_dependency : Dependency → Result DependencyError (Unit {0})
validate_dependency d = do
  fail_if (is_empty d.package_name) name_required
  fail_if (is_empty d.version_constraint) constraint_required

pub data ConfigError : Type 0 where
  version_required paths_required : ConfigError
  path_empty : ℕ → ConfigError

-- The loop over the paths, from index `i` on.
unfoldable pub validate_paths : ℕ → List Bytes → Result ConfigError (Unit {0})
validate_paths i [] = ok tt
validate_paths i (p ∷ ps) = do fail_if (is_empty p) (path_empty i); validate_paths (suc i) ps

unfoldable pub validate_config : ConfigSchema → Result ConfigError (Unit {0})
unfolding validate_paths
validate_config c = do
  fail_if (is_empty c.version) version_required
  fail_if (is_empty c.external_paths) paths_required
  validate_paths 0 c.external_paths

pub data EntryError : Type 0 where
  path_required hash_required hash_length hash_hex size_negative : EntryError

unfoldable pub validate_entry : FileEntry → Result EntryError (Unit {0})
validate_entry f = do
  fail_if (is_empty f.path) path_required
  fail_if (is_empty f.hash) hash_required
  fail_if (not (length f.hash == 64)) hash_length
  fail_if (not (is_hex f.hash)) hash_hex
  fail_if (signed_lt f.size 0) size_negative

pub data ManifestError : Type 0 where
  package_name_required manifest_version_required description_required creator_required
        maintainer_required content_hash_required content_list_empty created_at_required
        content_hash_length content_hash_hex :
      ManifestError
  bad_dependency : ℕ → DependencyError → ManifestError
  bad_config : ConfigError → ManifestError
  bad_entry : ℕ → EntryError → ManifestError

unfoldable pub validate_dependencies : ℕ → List Dependency → Result ManifestError (Unit {0})
unfolding validate_dependency
validate_dependencies i [] = ok tt
validate_dependencies i (d ∷ ds) = do
  wrap_err (bad_dependency i) (validate_dependency d)
  validate_dependencies (suc i) ds

unfoldable pub validate_entries : ℕ → List FileEntry → Result ManifestError (Unit {0})
unfolding validate_entry
validate_entries i [] = ok tt
validate_entries i (f ∷ fs) = do
  wrap_err (bad_entry i) (validate_entry f)
  validate_entries (suc i) fs

unfoldable pub validate_optional_config : Option ConfigSchema → Result ManifestError (Unit {0})
unfolding validate_config
validate_optional_config none = ok tt
validate_optional_config (some c) = wrap_err bad_config (validate_config c)

-- `Manifest.Validate`.
unfoldable pub validate_manifest : Manifest → Result ManifestError (Unit {0})
validate_manifest m = do
  fail_if (is_empty m.package_name) package_name_required
  fail_if (is_empty m.version) manifest_version_required
  fail_if (is_empty m.description) description_required
  fail_if (is_empty m.creator_pub_key.algorithm) creator_required
  fail_if (is_empty m.maintainer_pub_key.algorithm) maintainer_required
  fail_if (is_empty m.content_hash) content_hash_required
  validate_dependencies 0 m.dependencies
  validate_optional_config m.config_schema
  fail_if (is_empty m.content_list) content_list_empty
  fail_if (m.created_at == 0) created_at_required
  fail_if (not (length m.content_hash == 64)) content_hash_length
  fail_if (not (is_hex m.content_hash)) content_hash_hex
  validate_entries 0 m.content_list

pub data PackageError : Type 0 where
  id_required id_length id_hex unsupported_format signature_required maintainer_signature_required
        size_not_positive :
      PackageError
  invalid_manifest : ManifestError → PackageError

-- `Package.Validate`.
unfoldable pub validate_package : Package → Result PackageError (Unit {0})
validate_package p = do
  fail_if (is_empty p.package_id) id_required
  fail_if (not (length p.package_id == 64)) id_length
  fail_if (not (is_hex p.package_id)) id_hex
  fail_if
      (not (bytes_eq p.format_version (codes "1.1"))
        && not (bytes_eq p.format_version (codes "1.0")))
      unsupported_format
  wrap_err invalid_manifest (validate_manifest p.manifest)
  fail_if (is_empty p.manifest_signature.signed_data) signature_required
  fail_if (is_empty p.maintainer_manifest_signature.signed_data) maintainer_signature_required
  fail_if (not (signed_lt 0 p.size_bytes)) size_not_positive

-- `ComputePackageID`.
unfoldable pub compute_package_id : Primitives → Bytes → Bytes
compute_package_id prims content = encode (prims.sha256 content)

-- `Package.Fingerprint`, of the id.
unfoldable pub short_id : Bytes → Bytes
short_id id = if leb 16 (length id) then take 16 id else id

-- `FullName`.
unfoldable pub full_name : Bytes → Bytes → Bytes
full_name name version = name ++ codes "@" ++ version
