-- ===== src/Daemon/Packages/Methods.antt =====
-- What each method of the package database does, on every branch.
use libreseed.Prelude.{
  ◌≡◌, refl, none, some, arith, Option-cases, Result, ok, err, wrap_err, inl, inr,
}
use libreseed.Text.{bytes_discrete}
use libreseed.GoMap.{lookup, insert}
use libreseed.Storage.{Env, Files}
use libreseed.Daemon.PackageInfo.{PackageInfo, InfoError, validate_package_info}
use libreseed.Daemon.Packages.{
  PackageManager, Yaml, World, ManagerError, invalid_info, already_exists, not_saved, SaveError,
  save_state, with_packages, commit, add_valid, when_valid, add_package,
}

module _ {D : Type 0} (yaml : Yaml D) (env : Env D) (w : World D) where
  abbrev pub with_info : PackageInfo → PackageManager
  with_info info =
      with_packages w.manager (insert bytes_discrete info.package_id info w.manager.packages)

  -- The three ways of `AddPackage`.
  pub add_package_cases {ℓ} :
      (P : Result ManagerError (Unit {0}) × World D → Type ℓ) (info : PackageInfo)
      → ((e : InfoError) → validate_package_info (some info) ≡ err e → P (err (invalid_info e), w))
      → ((old : PackageInfo)
          → lookup bytes_discrete info.package_id w.manager.packages ≡ some old
          → P (err (already_exists info.package_id), w))
      → (validate_package_info (some info) ≡ ok tt
          → lookup bytes_discrete info.package_id w.manager.packages ≡ none
          → P (commit yaml env (with_info info) w.files))
      → P (add_package yaml env w info)
  unfolding add_package add_valid
  add_package_cases P info invalid exists fresh = go (validate_package_info (some info)) refl
    where
      go :
          (u : Result InfoError (Unit {0}))
          → validate_package_info (some info) ≡ u
          → P (when_valid u w (add_valid yaml env w info))
      go (err e) h = invalid e h
      go (ok t) h = elim (Option-cases (lookup bytes_discrete info.package_id w.manager.packages)) [
        | inl q ↦ rw q (fresh h q)
        | inr (old, q) ↦ rw q (exists old q)
      ]

  module _ (info : PackageInfo) (after : World D) where
    pub added_of_ok :
        add_package yaml env w info ≡ (ok tt, after)
        → (validate_package_info (some info) ≡ ok tt)
          × (lookup bytes_discrete info.package_id w.manager.packages ≡ none)
          × (after.manager ≡ with_info info)
          × (save_state yaml env (with_info info) w.files ≡ (ok tt, after.files))
    unfolding commit
    added_of_ok =
        add_package_cases
          (λ r.
            r ≡ (ok tt, after)
            → (validate_package_info (some info) ≡ ok tt)
              × (lookup bytes_discrete info.package_id w.manager.packages ≡ none)
              × (after.manager ≡ with_info info)
              × (save_state yaml env (with_info info) w.files ≡ (ok tt, after.files)))
          info (λ e h q. absurd (ground arith)) (λ old h q. absurd (ground arith))
          (λ h n q. (h, n, ground arith, saved (save_state yaml env (with_info info) w.files) q))
      where
        saved :
            (r : Result SaveError (Unit {0}) × Files D)
            → ◌≡◌ {A = Result ManagerError (Unit {0}) × World D}
                (wrap_err not_saved r.0, record { manager = with_info info; files = r.1 })
                (ok tt, after)
            → r ≡ (ok tt, after.files)
        saved (ok u, f) q = ground arith
        saved (err e, f) q = absurd (ground arith)
