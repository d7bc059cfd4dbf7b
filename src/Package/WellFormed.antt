-- ===== src/Package/WellFormed.antt =====
-- What `Validate` accepts, as predicates over the data, and that it accepts exactly that.
use libreseed.Prelude.{
  ℕ, suc, ◌≡◌, ◌≢◌, ◌<◌, ◌%◌, ◌^◌, ◌⊎◌, ◌↔◌, refl, true, Option, none, some, List, [], ◌∷◌, arith,
  length, Result, ok, err, wrap_err, ◌>>◌, signed_lt, signed_lt_pos_iff, word, All,
}
use libreseed.Text.{Bytes, codes, bytes_eq_iff}
use libreseed.Text.Hex.{is_hex}
use libreseed.Package.Manifest.{
  Dependency, ConfigSchema, FileEntry, Manifest, Package, validate_dependency, validate_paths,
  validate_config, validate_entry, validate_dependencies, validate_entries,
  validate_optional_config, validate_manifest, validate_package, bad_dependency, bad_config,
  bad_entry, invalid_manifest,
}

abbrev pub IsHexOf : ℕ → Bytes → Type 0
IsHexOf n s = (length s ≡ n) × (is_hex s ≡ true)

abbrev pub IsDependency : Dependency → Type 0
IsDependency d = (d.package_name ≢ []) × (d.version_constraint ≢ [])

abbrev pub IsConfig : ConfigSchema → Type 0
IsConfig c = (c.version ≢ []) × (c.external_paths ≢ []) × All (λ p. p ≢ []) c.external_paths

-- The size is an int64 that is not negative.
abbrev pub IsEntry : FileEntry → Type 0
IsEntry f = (f.path ≢ []) × IsHexOf 64 f.hash × (f.size % word < 2 ^ 63)

abbrev pub IsOptionalConfig : Option ConfigSchema → Type 0
IsOptionalConfig none = Unit
IsOptionalConfig (some c) = IsConfig c

pub record IsManifest (m : Manifest) : Type 0 where
  pub named : m.package_name ≢ []
  pub versioned : m.version ≢ []
  pub described : m.description ≢ []
  pub creator : m.creator_pub_key.algorithm ≢ []
  pub maintainer : m.maintainer_pub_key.algorithm ≢ []
  pub hash : IsHexOf 64 m.content_hash
  pub dependencies : All IsDependency m.dependencies
  pub config : IsOptionalConfig m.config_schema
  pub some_content : m.content_list ≢ []
  pub dated : m.created_at ≢ 0
  pub entries : All IsEntry m.content_list

pub record IsPackage (p : Package) : Type 0 where
  pub id : IsHexOf 64 p.package_id
  pub format : (p.format_version ≡ codes "1.1") ⊎ (p.format_version ≡ codes "1.0")
  pub manifest : IsManifest p.manifest
  pub signed : p.manifest_signature.signed_data ≢ []
  pub co_signed : p.maintainer_manifest_signature.signed_data ≢ []
  pub size : (0 < p.size_bytes % word) × (p.size_bytes % word < 2 ^ 63)

-- A step of a validation: it passes and the rest passes.
then_iff :
    {D E : Type 0} {P Q : Type 0} (f : D → E) (a : Result D (Unit {0})) (b : Result E (Unit {0}))
    → (a ≡ ok tt) ↔ P
    → (b ≡ ok tt) ↔ Q
    → ((wrap_err f a >> b) ≡ ok tt) ↔ (P × Q)
then_iff f (ok u) b p q = (λ h. (p.0 refl, q.0 h), λ h. q.1 h.1)
then_iff f (err e) b p q = (λ h. absurd (cc), λ h. absurd (cc (p.1 h.0)))

wrapped_iff :
    {D E : Type 0} (f : D → E) (a : Result D (Unit {0})) → (wrap_err f a ≡ ok tt) ↔ (a ≡ ok tt)
wrapped_iff f (ok u) = (λ _. refl, λ _. refl)
wrapped_iff f (err e) = (λ h. absurd (cc), λ h. absurd (cc))

validate_dependency_iff : (d : Dependency) → (validate_dependency d ≡ ok tt) ↔ IsDependency d
unfolding validate_dependency
validate_dependency_iff d = (λ h. ground arith, λ h. ground arith)

validate_dependencies_iff :
    (i : ℕ) (ds : List Dependency) → (validate_dependencies i ds ≡ ok tt) ↔ All IsDependency ds
unfolding validate_dependencies
validate_dependencies_iff i [] = (λ _. tt, λ _. refl)
validate_dependencies_iff i (d ∷ ds) =
    then_iff (bad_dependency i) (validate_dependency d) (validate_dependencies (suc i) ds)
      (validate_dependency_iff d) (validate_dependencies_iff (suc i) ds)

validate_paths_iff :
    (i : ℕ) (ps : List Bytes) → (validate_paths i ps ≡ ok tt) ↔ All (λ p. p ≢ []) ps
unfolding validate_paths
validate_paths_iff i [] = (λ _. tt, λ _. refl)
validate_paths_iff i (p ∷ ps) = (
  λ h. ground (arith, (validate_paths_iff (suc i) ps).0),
  λ h. ground (arith, (validate_paths_iff (suc i) ps).1),
)

validate_config_iff : (c : ConfigSchema) → (validate_config c ≡ ok tt) ↔ IsConfig c
unfolding validate_config
validate_config_iff c = (
  λ h. ground (arith, (validate_paths_iff 0 c.external_paths).0),
  λ h. ground (arith, (validate_paths_iff 0 c.external_paths).1),
)

validate_optional_config_iff :
    (o : Option ConfigSchema) → (validate_optional_config o ≡ ok tt) ↔ IsOptionalConfig o
unfolding validate_optional_config
validate_optional_config_iff none = (λ _. tt, λ _. refl)
validate_optional_config_iff (some c) =
    let w = wrapped_iff bad_config (validate_config c) in
    let q = validate_config_iff c in (λ h. q.0 (w.0 h), λ h. w.1 (q.1 h))

validate_entry_iff : (f : FileEntry) → (validate_entry f ≡ ok tt) ↔ IsEntry f
unfolding validate_entry signed_lt
validate_entry_iff f = (λ h. ground arith, λ h. ground arith)

validate_entries_iff :
    (i : ℕ) (fs : List FileEntry) → (validate_entries i fs ≡ ok tt) ↔ All IsEntry fs
unfolding validate_entries
validate_entries_iff i [] = (λ _. tt, λ _. refl)
validate_entries_iff i (f ∷ fs) =
    then_iff (bad_entry i) (validate_entry f) (validate_entries (suc i) fs) (validate_entry_iff f)
      (validate_entries_iff (suc i) fs)

-- `Manifest.Validate` accepts exactly the manifests with a name, a version, a description, two
-- keys, a content hash of 64 hex digits, a time, and dependencies, configuration and at least one
-- file that are well-formed in turn.
pub validate_manifest_iff : (m : Manifest) → (validate_manifest m ≡ ok tt) ↔ IsManifest m
unfolding validate_manifest
validate_manifest_iff m = (
  λ h. ground (
    arith,
    (validate_dependencies_iff 0 m.dependencies).0,
    (validate_optional_config_iff m.config_schema).0,
    (validate_entries_iff 0 m.content_list).0,
  ),
  λ h. ground (
    arith,
    (validate_dependencies_iff 0 m.dependencies).1,
    (validate_optional_config_iff m.config_schema).1,
    (validate_entries_iff 0 m.content_list).1,
  ),
)

-- `Package.Validate` accepts exactly the packages with an id of 64 hex digits, format 1.0 or 1.1, a
-- well-formed manifest, two signatures that are not empty and a positive size.
pub validate_package_iff : (p : Package) → (validate_package p ≡ ok tt) ↔ IsPackage p
unfolding validate_package
validate_package_iff p =
    let w = wrapped_iff invalid_manifest (validate_manifest p.manifest) in
    let q = validate_manifest_iff p.manifest in
    (
      λ h. ground (
        arith,
        w.0,
        q.0,
        bytes_eq_iff p.format_version (codes "1.1"),
        bytes_eq_iff p.format_version (codes "1.0"),
        signed_lt_pos_iff p.size_bytes,
      ),
      λ h. ground (
        arith,
        w.1 (q.1 h.manifest),
        bytes_eq_iff p.format_version (codes "1.1"),
        bytes_eq_iff p.format_version (codes "1.0"),
        signed_lt_pos_iff p.size_bytes,
      ),
    )
