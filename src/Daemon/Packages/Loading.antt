-- ===== src/Daemon/Packages/Loading.antt =====
-- What `LoadState` reads, and what it returns whatever it reads.
use libreseed.Prelude.{
  ◌≡◌, refl, subst, Bool, Option, none, some, List, [], arith, Bool-cases, Result-cases, inl, inr,
  ok,
}
use libreseed.Text.{Bytes, bytes_discrete}
use libreseed.GoMap.{lookup, Distinct, Keyed}
use libreseed.Storage.{File, Files, file_exists}
use libreseed.Daemon.PackageInfo.{PackageInfo}
use libreseed.Daemon.Packages.{
  PackageManager, Yaml, with_packages, load_state, read_packages, parse_packages, build_map,
}
use libreseed.Daemon.Packages.Persist.{build_map-Distinct}

-- `LoadState` depends on the metadata file alone.
pub load_state-files :
    (yaml : Yaml Bytes) (readable : Bool) (pm : PackageManager) (files files' : Files Bytes)
    → lookup bytes_discrete pm.meta_file files ≡ lookup bytes_discrete pm.meta_file files'
    → load_state yaml readable pm files ≡ load_state yaml readable pm files'
unfolding load_state file_exists
load_state-files yaml readable pm files files' e = rw e refl

parse_packages-Distinct :
    (pm pm' : PackageManager) (o : Option (List (Option PackageInfo)))
    → parse_packages pm o ≡ ok pm'
    → Distinct bytes_discrete pm'.packages × Keyed (λ i. i.package_id) pm'.packages
unfolding parse_packages
parse_packages-Distinct pm pm' none e = absurd (cc)
parse_packages-Distinct pm pm' (some l) e = elim (Result-cases (build_map [] l)) [
  | inl (x, q) ↦ absurd (ground arith)
  | inr (m, q) ↦
      let same : pm'.packages ≡ m = ground arith in rw same (build_map-Distinct [] m l tt tt q)
]

read_packages-Distinct :
    (yaml : Yaml Bytes) (pm pm' : PackageManager) (o : Option (File Bytes))
    → read_packages yaml pm o ≡ ok pm'
    → Distinct bytes_discrete pm'.packages × Keyed (λ i. i.package_id) pm'.packages
unfolding read_packages
read_packages-Distinct yaml pm pm' none e = absurd (cc)
read_packages-Distinct yaml pm pm' (some f) e =
    parse_packages-Distinct pm pm' (yaml.unmarshal f.content) e

-- What `LoadState` returns has one entry for each id, under its own id, whatever the file holds.
pub load_state-Distinct :
    (yaml : Yaml Bytes) (readable : Bool) (pm pm' : PackageManager) (files : Files Bytes)
    → load_state yaml readable pm files ≡ ok pm'
    → Distinct bytes_discrete pm'.packages × Keyed (λ i. i.package_id) pm'.packages
unfolding load_state
load_state-Distinct yaml readable pm pm' files e =
    elim (Bool-cases (file_exists pm.meta_file files)) [
      | inr q ↦
          let same : with_packages pm [] ≡ pm' = ground arith in
          subst
            (λ (m : PackageManager).
              Distinct bytes_discrete m.packages × Keyed (λ i. i.package_id) m.packages)
            same (tt, tt)
      | inl q ↦ elim (Bool-cases readable) [
        | inl r ↦
            read_packages-Distinct yaml pm pm' (lookup bytes_discrete pm.meta_file files)
              (rw (q, r) at e)
        | inr r ↦ absurd (ground arith)
      ]
    ]
