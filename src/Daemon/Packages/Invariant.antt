-- ===== src/Daemon/Packages/Invariant.antt =====
-- What always holds of the package database, whatever the disk does.
use libreseed.Prelude.{
  ℕ, ◌≡◌, refl, Bool, true, false, Option, some, All, Option-cases, Result, ok, err, inl, inr,
  is_some, Bool-cases, ◌∙◌,
}
use libreseed.Text.{Bytes, bytes_discrete}
use libreseed.GoMap.{GoMap, values, lookup, insert, delete, Distinct, Keyed}
use libreseed.GoMap.Laws.{insert-Distinct, delete-Distinct, insert-All, delete-All, lookup-All}
use libreseed.GoMap.Keys.{insert-Keyed, delete-Keyed, lookup-Keyed}
use libreseed.Storage.{Env, Files, RemoveError, safe_remove}
use libreseed.Daemon.PackageInfo.{
  PackageInfo, InfoError, IsWellFormed, validate_package_info, validate_package_info_iff,
}
use libreseed.Daemon.Packages.{
  PackageManager, Yaml, World, ManagerError, commit, add_valid, when_valid, add_package,
  after_removal, remove_package, announce, update_announcement_status,
}

-- One entry for each id, under its own id, and every entry passes validation.
pub record IsValid (m : GoMap Bytes PackageInfo) : Type 0 where
  pub distinct : Distinct bytes_discrete m
  pub keyed : Keyed (λ i. i.package_id) m
  pub well_formed : All IsWellFormed (values m)

pub insert-IsValid :
    (id : Bytes) (info : PackageInfo) (m : GoMap Bytes PackageInfo)
    → info.package_id ≡ id
    → IsWellFormed info
    → IsValid m
    → IsValid (insert bytes_discrete id info m)
insert-IsValid id info m e f v = record {
  distinct = insert-Distinct bytes_discrete id info m v.distinct;
  keyed = insert-Keyed bytes_discrete (λ i. i.package_id) id info m e v.keyed;
  well_formed = insert-All bytes_discrete IsWellFormed id info m f v.well_formed;
}

pub delete-IsValid :
    (id : Bytes) (m : GoMap Bytes PackageInfo) → IsValid m → IsValid (delete bytes_discrete id m)
delete-IsValid id m v = record {
  distinct = delete-Distinct bytes_discrete id m v.distinct;
  keyed = delete-Keyed bytes_discrete (λ i. i.package_id) id m v.keyed;
  well_formed = delete-All bytes_discrete IsWellFormed id m v.well_formed;
}

announce-IsWellFormed :
    (announced : Bool) (now : ℕ) (info : PackageInfo)
    → IsWellFormed info
    → IsWellFormed (announce announced now info)
unfolding announce
announce-IsWellFormed true now info w = record {
  id = w.id;
  named = w.named;
  versioned = w.versioned;
  described = w.described;
  absolute = w.absolute;
  hash = w.hash;
  size = w.size;
  dated = w.dated;
  creator = w.creator;
  signed = w.signed;
  signed_hex = w.signed_hex;
  maintainer = w.maintainer;
  co_signed = w.co_signed;
  co_signed_hex = w.co_signed_hex;
}
announce-IsWellFormed false now info w = record {
  id = w.id;
  named = w.named;
  versioned = w.versioned;
  described = w.described;
  absolute = w.absolute;
  hash = w.hash;
  size = w.size;
  dated = w.dated;
  creator = w.creator;
  signed = w.signed;
  signed_hex = w.signed_hex;
  maintainer = w.maintainer;
  co_signed = w.co_signed;
  co_signed_hex = w.co_signed_hex;
}

package_id-announce :
    (announced : Bool) (now : ℕ) (info : PackageInfo)
    → (announce announced now info).package_id ≡ info.package_id
unfolding announce
package_id-announce true now info = refl
package_id-announce false now info = refl

module _ {D : Type 0} (yaml : Yaml D) (env : Env D) (w : World D) where
  abbrev Valid : World D → Type 0
  Valid u = IsValid u.manager.packages

  packages-commit :
      (pm : PackageManager) (files : Files D) → (commit yaml env pm files).1.manager ≡ pm
  unfolding commit
  packages-commit pm files = refl

  when_valid-IsValid :
      (o : Option PackageInfo) (r : Result ManagerError (Unit {0}) × World D)
      → Valid w
      → (validate_package_info o ≡ ok tt → Valid r.1)
      → Valid (when_valid (validate_package_info o) w r).1
  when_valid-IsValid o r v h = go (validate_package_info o) refl
    where
      go :
          (u : Result InfoError (Unit {0}))
          → validate_package_info o ≡ u
          → Valid (when_valid u w r).1
      go (ok t) e = h e
      go (err f) e = v

  -- `AddPackage` keeps the invariant.
  pub add_package-IsValid :
      (info : PackageInfo)
      → IsValid w.manager.packages
      → IsValid (add_package yaml env w info).1.manager.packages
  unfolding add_package
  add_package-IsValid info v = when_valid-IsValid (some info) (add_valid yaml env w info) v λ e.
      let f = (validate_package_info_iff (some info)).0 e in add_valid-IsValid f.0 (some-eq f.1) f.2
    where
      some-eq : {a b : PackageInfo} → some a ≡ some b → a ≡ b
      some-eq h = cc

      add_valid-IsValid :
          (i : PackageInfo) → info ≡ i → IsWellFormed i → Valid (add_valid yaml env w info).1
      add_valid-IsValid i e f =
          elim (Bool-cases (is_some (lookup bytes_discrete info.package_id w.manager.packages))) [
            | inl q ↦ rw q v
            | inr q ↦ rw q (insert-IsValid info.package_id info w.manager.packages refl (rw e f) v)
          ]

  after_removal-IsValid :
      (id : Bytes) (r : Result RemoveError (Unit {0}) × Files D)
      → Valid w
      → Valid (after_removal yaml env id w r).1
  unfolding commit
  after_removal-IsValid id (ok u, files) v = delete-IsValid id w.manager.packages v
  after_removal-IsValid id (err e, files) v = v

  -- `RemovePackage` keeps the invariant.
  pub remove_package-IsValid :
      (refused : Bool) (id : Bytes)
      → IsValid w.manager.packages
      → IsValid (remove_package yaml env refused w id).1.manager.packages
  unfolding remove_package
  remove_package-IsValid refused id v =
      elim (Option-cases (lookup bytes_discrete id w.manager.packages)) [
        | inl e ↦ rw (e, remove_package) v
        | inr (info, e) ↦
            rw (e, remove_package)
              (after_removal-IsValid id (safe_remove refused info.file_path w.files) v)
      ]

  -- `UpdateAnnouncementStatus` keeps the invariant.
  pub update_announcement_status-IsValid :
      (id : Bytes) (announced : Bool) (now : ℕ)
      → IsValid w.manager.packages
      → IsValid (update_announcement_status yaml env w id announced now).1.manager.packages
  unfolding update_announcement_status
  update_announcement_status-IsValid id announced now v =
      elim (Option-cases (lookup bytes_discrete id w.manager.packages)) [
        | inl e ↦ rw (e, update_announcement_status) v
        | inr (info, e) ↦
            rw (e, update_announcement_status)
              (insert-IsValid id (announce announced now info) w.manager.packages
                (package_id-announce announced now info
                  ∙ lookup-Keyed bytes_discrete (λ i. i.package_id) id info w.manager.packages
                      v.keyed e)
                (announce-IsWellFormed announced now info (
                  lookup-All bytes_discrete IsWellFormed id info w.manager.packages v.well_formed
                    e))
                v)
      ]
