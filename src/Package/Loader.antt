-- ===== src/Package/Loader.antt =====
-- pkg/package/loader.go: packages in files. gopkg.in/yaml.v3 on packages is a parameter.
pub mod RoundTrip
use libreseed.Prelude.{
  ℕ, Bool, true, false, Option, none, some, length, Result, ok, err, wrap_err, ◌>>◌, ◌>>=◌,
  if◌then◌else◌,
}
use libreseed.Text.{Bytes}
use libreseed.Crypto.Keys.{Primitives}
use libreseed.Storage.{Files}
use libreseed.Storage.OsFiles.{Write, read_file, os_write_file}
use libreseed.Package.Manifest.{Package, PackageError, validate_package, compute_package_id}

pub record PackageYaml : Type 0 where
  pub marshal : Package → Option Bytes
  pub unmarshal : Bytes → Option Package

pub data LoaderError : Type 0 where
  not_read not_parsed not_statted not_marshalled not_written : LoaderError
  invalid_package : PackageError → LoaderError

abbrev pub or_fail : {A : Type 0} → Option A → LoaderError → Result LoaderError A
or_fail none e = err e
or_fail (some a) e = ok a

-- `LoadPackageFromBytes`.
unfoldable pub load_bytes : PackageYaml → Bytes → Result LoaderError Package
load_bytes yaml content = do
  pkg ← or_fail (yaml.unmarshal content) not_parsed
  wrap_err invalid_package (validate_package pkg)
  ok pkg

-- The fields that are set from the file.
abbrev pub located : Primitives → Bytes → Bytes → ℕ → Package → Package
located prims path content size pkg = record pkg {
  file_path = path;
  package_id = compute_package_id prims content;
  size_bytes = size;
}

-- `LoadPackageFromFile`: whether `os.ReadFile` works, and what `os.Stat` says of the size.
unfoldable pub load_package_from_file :
    Primitives → PackageYaml → Bool → Option ℕ → Bytes → Files Bytes → Result LoaderError Package
unfolding load_bytes
load_package_from_file prims yaml readable size path files = do
  content ← or_fail (read_file readable path files) not_read
  pkg ← load_bytes yaml content
  bytes ← or_fail size not_statted
  ok (located prims path content bytes pkg)

-- `SerializePackage`.
unfoldable pub serialize_package : PackageYaml → Package → Result LoaderError Bytes
serialize_package yaml pkg = do
  wrap_err invalid_package (validate_package pkg)
  or_fail (yaml.marshal pkg) not_marshalled

-- `WritePackageToFile` after the package is serialized: the package and the files after it.
unfoldable pub write_content :
    Primitives
    → Write Bytes
    → Package
    → Bytes
    → Files Bytes
    → Result LoaderError Bytes
    → Result LoaderError (Unit {0}) × Package × Files Bytes
write_content prims w pkg path files (err e) = (err e, pkg, files)
write_content prims w pkg path files (ok content) =
    let written = os_write_file w path content 0o644 files in
    if written.0
    then (ok tt, located prims path content (length content) pkg, written.1)
    else (err not_written, pkg, written.1)

-- `WritePackageToFile`.
unfoldable pub write_package_to_file :
    Primitives
    → PackageYaml
    → Write Bytes
    → Package
    → Bytes
    → Files Bytes
    → Result LoaderError (Unit {0}) × Package × Files Bytes
unfolding serialize_package write_content
write_package_to_file prims yaml w pkg path files =
    write_content prims w pkg path files (serialize_package yaml pkg)
