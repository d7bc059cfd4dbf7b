-- ===== src/Package/Loader/RoundTrip.antt =====
-- A package that is written to a file is read back from it.
use libreseed.Prelude.{
  ℕ, ◌≡◌, refl, ◌∙◌, true, some, [], arith, length, Result, ok, err, Option-cases, Result-cases,
  inl, inr,
}
use libreseed.Text.{Bytes, bytes_discrete}
use libreseed.GoMap.{lookup}
use libreseed.GoMap.Laws.{lookup-insert_self}
use libreseed.Crypto.Keys.{Primitives}
use libreseed.Storage.{File, Files}
use libreseed.Storage.OsFiles.{Write, mode_or, read_file, put_file, os_write_file-ok}
use libreseed.Package.Manifest.{Package, validate_package}
use libreseed.Package.Loader.{
  PackageYaml, LoaderError, load_bytes, located, load_package_from_file, serialize_package,
  write_content, write_package_to_file,
}

serialize_package-ok :
    (yaml : PackageYaml) (pkg : Package) (content : Bytes)
    → serialize_package yaml pkg ≡ ok content
    → (validate_package pkg ≡ ok tt) × (yaml.marshal pkg ≡ some content)
unfolding serialize_package
serialize_package-ok yaml pkg content h = elim (Result-cases (validate_package pkg)) [
  | inl (e, v) ↦ absurd (ground arith)
  | inr (u, v) ↦ elim (Option-cases (yaml.marshal pkg)) [
    | inl m ↦ absurd (ground arith)
    | inr (c, m) ↦ (v, ground arith)
  ]
]

load-of_lookup :
    (prims : Primitives) (yaml : PackageYaml) (path content : Bytes) (pkg : Package)
    (f : File Bytes) (files : Files Bytes) (size : ℕ)
    → lookup bytes_discrete path files ≡ some f
    → f.content ≡ content
    → yaml.unmarshal content ≡ some pkg
    → validate_package pkg ≡ ok tt
    → load_package_from_file prims yaml true (some size) path files
      ≡ ok (located prims path content size pkg)
unfolding load_package_from_file load_bytes
load-of_lookup prims yaml path content pkg f files size h c u v = rw (h, c, u, v) refl

-- The path of the file is not in the file.
abbrev pub unplaced : Package → Package
unplaced pkg = record pkg { file_path = [] }

abbrev pub ReadsBack : PackageYaml → Package → Type 0
ReadsBack yaml pkg =
    (content : Bytes)
    → yaml.marshal pkg ≡ some content
    → yaml.unmarshal content ≡ some (unplaced pkg)

validate_package-unplaced : (pkg : Package) → validate_package (unplaced pkg) ≡ validate_package pkg
unfolding validate_package
validate_package-unplaced pkg = refl

-- The package, its file and the size of its contents after a success.
write_content-ok :
    (prims : Primitives) (w : Write Bytes) (pkg : Package) (path content : Bytes)
    (files : Files Bytes)
    → (write_content prims w pkg path files (ok content)).0 ≡ ok tt
    → write_content prims w pkg path files (ok content)
      ≡ (ok tt, located prims path content (length content) pkg, put_file path content 0o644 files)
unfolding write_content
write_content-ok prims w pkg path content files h =
    ground (arith, os_write_file-ok w path content 0o644 files)

load-write_content :
    (prims : Primitives) (yaml : PackageYaml) (w : Write Bytes) (pkg : Package) (path : Bytes)
    (files : Files Bytes) (serialized : Result LoaderError Bytes)
    → serialize_package yaml pkg ≡ serialized
    → ReadsBack yaml pkg
    → let r = write_content prims w pkg path files serialized in
      r.0 ≡ ok tt
      → (content : Bytes) × (read_file true path r.2 ≡ some content)
        × (load_package_from_file prims yaml true (some (length content)) path r.2 ≡ ok r.1)
unfolding write_content
load-write_content prims yaml w pkg path files (err e) s back h = absurd (cc h)
load-write_content prims yaml w pkg path files (ok content) s back h =
    let (v, m) = serialize_package-ok yaml pkg content s in
    let f : File Bytes = record {
      content = content;
      mode = mode_or 0o644 (lookup bytes_discrete path files);
    } in
    let there = lookup-insert_self bytes_discrete path f files in
    rw (write_content-ok prims w pkg path content files h) (
      content,
      rw there refl,
      load-of_lookup prims yaml path content (unplaced pkg) f (put_file path content 0o644 files)
          (length content) there refl (back content m) (validate_package-unplaced pkg ∙ v),
    )

-- If the YAML library reads back what it writes of the package, all but the path of its file, then
-- a success of `WritePackageToFile` leaves a file from which `LoadPackageFromFile` returns the
-- package that `WritePackageToFile` has left, with its id, its path and its size, if the file can
-- be read and `Stat` returns the length of its contents.
pub load_package_from_file-write :
    (prims : Primitives) (yaml : PackageYaml) (w : Write Bytes) (pkg : Package) (path : Bytes)
    (files : Files Bytes)
    → ReadsBack yaml pkg
    → (write_package_to_file prims yaml w pkg path files).0 ≡ ok tt
    → let r = write_package_to_file prims yaml w pkg path files in
      (content : Bytes) × (read_file true path r.2 ≡ some content)
      × (load_package_from_file prims yaml true (some (length content)) path r.2 ≡ ok r.1)
unfolding write_package_to_file
load_package_from_file-write prims yaml w pkg path files back h =
    load-write_content prims yaml w pkg path files (serialize_package yaml pkg) refl back h
