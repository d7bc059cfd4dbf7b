-- ===== src/Package/Description.antt =====
-- pkg/package/description.go: the minimal description that is published in the DHT, and its key.
use libreseed.Prelude.{
  ◌≡◌, ◌≢◌, ◌≤◌, ◌⊎◌, ◌↔◌, refl, Bool, not, ◌++◌, [], ◌∷◌, ◌==◌, arith, ltb, is_empty, length,
  Result, ok, fail_if, ◌>>◌, ◌>>=◌, All, inl,
}
use libreseed.Text.{Bytes, codes, IsByte, bytes_eq}
use libreseed.Text.Hex.{is_hex, encode, length-encode, is_hex-encode}
use libreseed.Crypto.Keys.{PublicKey, Primitives, fingerprint}
use libreseed.Package.WellFormed.{IsHexOf}

pub record MinimalDescription : Type 0 where
  pub package_id : Bytes
  pub creator_pub_key : PublicKey
  pub maintainer_pub_key : PublicKey
  pub name : Bytes
  pub version : Bytes
  pub short_description : Bytes
  pub dht_key : Bytes
  pub torrent_info_hash : Bytes

pub data DescriptionError : Type 0 where
  id_required id_length id_hex creator_required maintainer_required name_required version_required
        description_required description_too_long key_required key_length key_hex torrent_length
        torrent_hex :
      DescriptionError

unfoldable pub validate_torrent : Bytes → Result DescriptionError (Unit {0})
validate_torrent [] = ok tt
validate_torrent (c ∷ s) = do
  fail_if (not (length (c ∷ s) == 40)) torrent_length
  fail_if (not (is_hex (c ∷ s))) torrent_hex

-- `MinimalDescription.Validate`.
unfoldable pub validate_description : MinimalDescription → Result DescriptionError (Unit {0})
unfolding validate_torrent
validate_description d = do
  fail_if (is_empty d.package_id) id_required
  fail_if (not (length d.package_id == 64)) id_length
  fail_if (not (is_hex d.package_id)) id_hex
  fail_if (is_empty d.creator_pub_key.algorithm) creator_required
  fail_if (is_empty d.maintainer_pub_key.algorithm) maintainer_required
  fail_if (is_empty d.name) name_required
  fail_if (is_empty d.version) version_required
  fail_if (is_empty d.short_description) description_required
  fail_if (ltb 200 (length d.short_description)) description_too_long
  fail_if (is_empty d.dht_key) key_required
  fail_if (not (length d.dht_key == 40)) key_length
  fail_if (not (is_hex d.dht_key)) key_hex
  validate_torrent d.torrent_info_hash

pub data DhtKeyError : Type 0 where
  no_key_bytes no_name : DhtKeyError

-- `ComputeDHTKey`, with SHA-1 as a parameter.
unfoldable pub compute_dht_key : (Bytes → Bytes) → MinimalDescription → Result DhtKeyError Bytes
compute_dht_key sha1 d = do
  fail_if (is_empty d.creator_pub_key.key_bytes) no_key_bytes
  fail_if (is_empty d.name) no_name
  ok (encode (sha1 (d.creator_pub_key.key_bytes ++ d.name ++ codes "libreseed")))

-- `UpdateDHTKey`.
unfoldable pub update_dht_key :
    (Bytes → Bytes) → MinimalDescription → Result DhtKeyError MinimalDescription
unfolding compute_dht_key
update_dht_key sha1 d = do key ← compute_dht_key sha1 d; ok (record d { dht_key = key })

-- `IsMaintainerSameAsCreator`.
unfoldable pub is_maintainer_same_as_creator : Primitives → MinimalDescription → Bool
is_maintainer_same_as_creator prims d =
    bytes_eq (fingerprint prims d.maintainer_pub_key) (fingerprint prims d.creator_pub_key)

pub record IsDescription (d : MinimalDescription) : Type 0 where
  pub id : IsHexOf 64 d.package_id
  pub creator : d.creator_pub_key.algorithm ≢ []
  pub maintainer : d.maintainer_pub_key.algorithm ≢ []
  pub named : d.name ≢ []
  pub versioned : d.version ≢ []
  pub described : d.short_description ≢ []
  pub short : length d.short_description ≤ 200
  pub key : IsHexOf 40 d.dht_key
  pub torrent : (d.torrent_info_hash ≡ []) ⊎ IsHexOf 40 d.torrent_info_hash

torrent_iff : (s : Bytes) → (validate_torrent s ≡ ok tt) ↔ ((s ≡ []) ⊎ IsHexOf 40 s)
unfolding validate_torrent
torrent_iff [] = (λ _. inl refl, λ _. refl)
torrent_iff (c ∷ s) = (λ h. ground arith, λ h. ground arith)

-- `MinimalDescription.Validate` accepts exactly the descriptions with an id of 64 hex digits, both
-- keys, a name, a version, a short description of 1 to 200 bytes, a DHT key of 40 hex digits, and
-- a torrent hash that is absent or has 40 hex digits.
pub validate_description_iff :
    (d : MinimalDescription) → (validate_description d ≡ ok tt) ↔ IsDescription d
unfolding validate_description validate_torrent
validate_description_iff d = (
  λ h. ground (arith, (torrent_iff d.torrent_info_hash).0),
  λ h. ground (arith, (torrent_iff d.torrent_info_hash).1 h.torrent),
)

-- SHA-1 returns 20 bytes.
abbrev pub IsSha1 : (Bytes → Bytes) → Type 0
IsSha1 sha1 = (s : Bytes) → (length (sha1 s) ≡ 20) × All IsByte (sha1 s)

-- If SHA-1 returns 20 bytes, the key that `UpdateDHTKey` writes when it succeeds has 40 hex
-- digits, and it changes nothing else.
pub update_dht_key_hex :
    (sha1 : Bytes → Bytes) (d e : MinimalDescription)
    → IsSha1 sha1
    → update_dht_key sha1 d ≡ ok e
    → IsHexOf 40 e.dht_key × (e ≡ record d { dht_key = e.dht_key })
unfolding update_dht_key
update_dht_key_hex sha1 d e sha h =
    let text = d.creator_pub_key.key_bytes ++ d.name ++ codes "libreseed" in
    let (size, bytes) = sha text in
    ground (arith, length-encode (sha1 text), is_hex-encode (sha1 text) bytes)
