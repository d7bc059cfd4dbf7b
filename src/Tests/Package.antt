-- ===== src/Tests/Package.antt =====
-- pkg/package on the sample package and its description.
use mathlib.Core.Option.{some}
use libreseed.Prelude.{true, ◌≡◌, ◌↔◌, refl, [], ok, arith, length, signed_lt}
use libreseed.Text.{Bytes, codes, bytes_eq}
use libreseed.Text.Hex.{encode, is_hex}
use libreseed.Package.Manifest.{
  validate_manifest, validate_package, validate_dependencies, validate_optional_config,
  validate_entries,
}
use libreseed.Package.WellFormed.{IsPackage, validate_package_iff}
use libreseed.Package.Loader.{
  PackageYaml, write_package_to_file, serialize_package, write_content, load_package_from_file,
}
use libreseed.Package.Loader.RoundTrip.{ReadsBack, unplaced, load_package_from_file-write}
use libreseed.Storage.OsFiles.{writes, read_file, os_write_file}
use libreseed.Package.Description.{MinimalDescription, IsSha1, update_dht_key}
use libreseed.Tests.Samples.{sample_prims, sample_package, sample_key, sixty_four, twenty}

validate_package_iff_example : (validate_package sample_package ≡ ok tt) ↔ IsPackage sample_package
validate_package_iff_example = validate_package_iff sample_package

abbrev sample_sha1 : Bytes → Bytes
sample_sha1 _ = twenty 5

sample_sha1-IsSha1 : IsSha1 sample_sha1
sample_sha1-IsSha1 s = (refl, ground arith)

abbrev sample_description : MinimalDescription
sample_description = record {
  package_id = sixty_four b'a';
  creator_pub_key = sample_key;
  maintainer_pub_key = sample_key;
  name = codes "tool";
  version = codes "1.0.0";
  short_description = codes "A tool";
  dht_key = [];
  torrent_info_hash = [];
}

abbrev keyed_description : MinimalDescription
keyed_description = record sample_description { dht_key = encode (twenty 5) }

sample_keyed : update_dht_key sample_sha1 sample_description ≡ ok keyed_description
unfolding update_dht_key
sample_keyed = refl

-- A library that knows one package.
abbrev one_yaml : PackageYaml
one_yaml = record {
  marshal = λ _. some (codes "package");
  unmarshal = λ _. some (unplaced sample_package);
}

one_yaml-ReadsBack : ReadsBack one_yaml sample_package
one_yaml-ReadsBack content e = refl

package_written :
    (write_package_to_file sample_prims one_yaml writes sample_package (codes "/p/a") []).0 ≡ ok tt
unfolding write_package_to_file serialize_package write_content os_write_file validate_package
    validate_dependencies validate_optional_config validate_entries validate_manifest is_hex
    signed_lt bytes_eq
package_written = refl

load_package_from_file-write_example :
    (content : Bytes) × (read_file true
        (codes "/p/a")
        (write_package_to_file sample_prims one_yaml writes sample_package (codes "/p/a") []).2
      ≡ some content)
    × (load_package_from_file sample_prims one_yaml true
          (some (length content))
          (codes "/p/a")
          (write_package_to_file sample_prims one_yaml writes sample_package (codes "/p/a") []).2
        ≡ ok
            (write_package_to_file sample_prims one_yaml writes sample_package (codes "/p/a") []).1)
load_package_from_file-write_example =
    load_package_from_file-write sample_prims one_yaml writes sample_package (codes "/p/a") []
      one_yaml-ReadsBack package_written
