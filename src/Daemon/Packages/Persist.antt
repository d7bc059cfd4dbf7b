-- ===== src/Daemon/Packages/Persist.antt =====
-- `SaveState` and `LoadState`: what is saved is read back.
use mathlib.Core.List.{append_assoc, append-nil}
use libreseed.Prelude.{
  ◌≡◌, ◌≢◌, refl, sym, ◌∙◌, true, Option, none, some, List, [], ◌∷◌, ◌++◌, map, arith, Option-cases,
  Result, ok, err, inl, inr, ap,
}
use libreseed.Text.{Bytes, bytes_discrete}
use libreseed.GoMap.{GoMap, values, insert, Distinct, Keyed}
use libreseed.GoMap.Laws.{insert-Distinct}
use libreseed.GoMap.Keys.{insert-Keyed}
use libreseed.GoMap.Append.{insert_absent, absent_of_Distinct}
use libreseed.Storage.{Files, WriteError, Env, write_file}
use libreseed.Storage.WriteFile.{write_file-eq-ok}
use libreseed.Daemon.PackageInfo.{PackageInfo}
use libreseed.Daemon.Packages.{
  PackageManager, Yaml, IsRoundTrip, build_map, parse_packages, load_state, store_packages,
  save_state,
}

build_map-append :
    (m n : GoMap Bytes PackageInfo)
    → Distinct bytes_discrete (m ++ n)
    → Keyed (λ i. i.package_id) n
    → build_map m (map some (values n)) ≡ ok (m ++ n)
unfolding build_map
build_map-append m [] d k = ap ok (sym (append-nil m))
build_map-append m ((id, info) ∷ n) d k =
    let one : GoMap Bytes PackageInfo = (id, info) ∷ [] in
    let same : insert bytes_discrete info.package_id info m ≡ m ++ one =
      ap (λ (j : Bytes). insert bytes_discrete j info m) k.0
      ∙ insert_absent bytes_discrete id info m (absent_of_Distinct bytes_discrete id info m n d) in
    ap (λ (acc : GoMap Bytes PackageInfo). build_map acc (map some (values n))) same
    ∙ build_map-append (m ++ one) n (rw (append_assoc m one n) d) k.1
    ∙ ap ok (append_assoc m one n)

-- The map is rebuilt from its values.
pub build_map-values :
    (m : GoMap Bytes PackageInfo)
    → Distinct bytes_discrete m
    → Keyed (λ i. i.package_id) m
    → build_map [] (map some (values m)) ≡ ok m
build_map-values m d k = build_map-append [] m d k

-- A map built from any list has one entry for each id, under its own id.
pub build_map-Distinct :
    (m n : GoMap Bytes PackageInfo) (l : List (Option PackageInfo))
    → Distinct bytes_discrete m
    → Keyed (λ i. i.package_id) m
    → build_map m l ≡ ok n
    → Distinct bytes_discrete n × Keyed (λ i. i.package_id) n
unfolding build_map
build_map-Distinct m n [] d k e = ground arith
build_map-Distinct m n (none ∷ l) d k e = absurd (cc)
build_map-Distinct m n (some info ∷ l) d k e =
    build_map-Distinct (insert bytes_discrete info.package_id info m) n l
      (insert-Distinct bytes_discrete info.package_id info m d)
      (insert-Keyed bytes_discrete (λ i. i.package_id) info.package_id info m refl k) e

module _ {D : Type 0} (yaml : Yaml D) (env : Env D) (pm : PackageManager) (files : Files D) where
  pub save_state-eq-ok :
      (after : Files D)
      → save_state yaml env pm files ≡ (ok tt, after)
      → (d : D) × (yaml.marshal (values pm.packages) ≡ some d)
        × (write_file env pm.meta_file d 0o644 files ≡ (ok tt, after))
  unfolding save_state
  save_state-eq-ok after e = elim (Option-cases (yaml.marshal (values pm.packages))) [
    | inl q ↦ absurd (ground arith)
    | inr (d, q) ↦ (d, q, stored d (write_file env pm.meta_file d 0o644 files) refl (rw q at e))
  ]
    where
      stored :
          (d : D) (r : Result WriteError (Unit {0}) × Files D)
          → write_file env pm.meta_file d 0o644 files ≡ r
          → store_packages env pm files (some d) ≡ (ok tt, after)
          → write_file env pm.meta_file d 0o644 files ≡ (ok tt, after)
      stored d (ok u, f) q h = ground arith
      stored d (err x, f) q h = absurd (ground arith)

  -- After `SaveState` of a database with one entry for each id, under its own id, has returned no
  -- error, `LoadState` reads back the whole database, if yaml reads back what it writes, the
  -- temporary file is not the metadata file, and the metadata file can be read.
  pub load_state-save_state :
      (after : Files D)
      → IsRoundTrip yaml
      → pm.meta_file ≢ env.tmp
      → Distinct bytes_discrete pm.packages
      → Keyed (λ i. i.package_id) pm.packages
      → save_state yaml env pm files ≡ (ok tt, after)
      → load_state yaml true pm after ≡ ok pm
  unfolding load_state
  load_state-save_state after trip apart d k e =
      let (c, marshalled, stored) = save_state-eq-ok after e in
      let (nonempty, others, found) =
        write_file-eq-ok env pm.meta_file c 0o644 files after apart stored in
      rw (nonempty, found, trip _ c marshalled, build_map-values pm.packages d k, parse_packages)
        refl
