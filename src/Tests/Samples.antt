-- ===== src/Tests/Samples.antt =====
-- Concrete data: identifiers, a package and its metadata, stand-ins for the libraries, and a disk.
use mathlib.Core.Option.{Option, none, some}
use libreseed.Prelude.{ℕ, true, false, List, [], ◌∷◌, ◌++◌, map, arith}
use libreseed.Text.{Bytes, codes}
use libreseed.Storage.{Env}
use libreseed.Crypto.Keys.{Primitives, PublicKey}
use libreseed.Crypto.Signer.{Signature, algorithm_ed25519}
use libreseed.Package.Manifest.{Manifest, Package}
use libreseed.Daemon.PackageInfo.{PackageInfo}
use libreseed.Daemon.Packages.{PackageManager, Yaml, World, IsRoundTrip}

-- 8, 16, 32, 40 and 64 equal digits.
abbrev pub eight : ℕ → Bytes
eight c = c ∷ c ∷ c ∷ c ∷ c ∷ c ∷ c ∷ c ∷ []

abbrev pub sixteen : ℕ → Bytes
sixteen c = eight c ++ eight c

abbrev pub thirty_two : ℕ → Bytes
thirty_two c = sixteen c ++ sixteen c

abbrev pub forty : ℕ → Bytes
forty c = thirty_two c ++ eight c

abbrev pub sixty_four : ℕ → Bytes
sixty_four c = thirty_two c ++ thirty_two c

abbrev pub twenty : ℕ → Bytes
twenty c = sixteen c ++ (c ∷ c ∷ c ∷ c ∷ [])

-- A file of the sample disk: the metadata, a package, or other bytes.
pub data Document : Type 0 where
  listing : List PackageInfo → Document
  packed : Package → Document
  other : Document

abbrev pub unmarshal_listing : Document → Option (List (Option PackageInfo))
unmarshal_listing (listing l) = some (map some l)
unmarshal_listing (packed p) = none
unmarshal_listing other = none

abbrev pub unmarshal_packed : Document → Option Package
unmarshal_packed (packed p) = some p
unmarshal_packed (listing l) = none
unmarshal_packed other = none

abbrev pub sample_yaml : Yaml Document
sample_yaml = record { marshal = λ l. some (listing l); unmarshal = unmarshal_listing }

pub sample_yaml-IsRoundTrip : IsRoundTrip sample_yaml
sample_yaml-IsRoundTrip l d e = ground arith

abbrev pub sample_prims : Primitives
sample_prims = record {
  sha256 = λ _. thirty_two 7;
  sign = λ _ _. sixty_four 9;
  verify = λ _ _ _. true;
}

abbrev pub no_fault : Env Document
no_fault = record {
  fault = none;
  cleanup = true;
  tmp = codes "/m/.tmp";
  empty = other;
  partial = other;
}

abbrev pub sample_info : PackageInfo
sample_info = record {
  package_id = sixty_four b'a';
  name = codes "tool";
  version = codes "1.0.0";
  description = codes "A tool";
  file_path = codes "/p/tool";
  file_hash = sixty_four b'b';
  file_size = 10;
  created_at = 5;
  creator_fingerprint = sixteen b'c';
  manifest_signature = sixteen b'd';
  maintainer_fingerprint = sixteen b'e';
  maintainer_manifest_signature = sixteen b'f';
  announced_to_dht = false;
  last_announced = 0;
}

abbrev pub empty_manager : PackageManager
empty_manager = record { packages = []; storage_dir = codes "/p"; meta_file = codes "/m/meta" }

abbrev pub empty_world : World Document
empty_world = record { manager = empty_manager; files = [] }

abbrev pub one_package : PackageManager
one_package = record {
  packages = (sample_info.package_id, sample_info) ∷ [];
  storage_dir = codes "/p";
  meta_file = codes "/m/meta";
}

abbrev pub one_world : World Document
one_world = record {
  manager = one_package;
  files = (sample_info.file_path, record { content = other; mode = 0o644 }) ∷ [];
}

abbrev pub sample_key : PublicKey
sample_key = record { algorithm = codes "ed25519"; key_bytes = thirty_two 3 }

abbrev pub sample_signature : Signature
sample_signature = record {
  algorithm = algorithm_ed25519;
  signed_by = sample_key;
  signed_data = sixty_four 9;
  signed_at = 4;
}

abbrev pub sample_manifest : Manifest
sample_manifest = record {
  package_name = codes "tool";
  version = codes "1.0.0";
  description = codes "A tool";
  creator_pub_key = sample_key;
  maintainer_pub_key = sample_key;
  dependencies = [];
  config_schema = none;
  content_hash = sixty_four b'b';
  content_list = record { path = codes "bin"; hash = sixty_four b'c'; size = 3; mode = 0 } ∷ [];
  created_at = 5;
  metadata = [];
}

abbrev pub sample_package : Package
sample_package = record {
  package_id = sixty_four b'a';
  format_version = codes "1.1";
  manifest = sample_manifest;
  manifest_signature = sample_signature;
  maintainer_manifest_signature = sample_signature;
  file_path = [];
  size_bytes = 10;
}
