-- ===== src/Daemon/Packages/Refinement.antt =====
-- The package database refines a map from ids to packages: what each call does to the map depends
-- on the request and on whether the call got to the point where it saves.
use mathlib.Core.Option
use libreseed.Prelude.{
  ℕ, ◌≡◌, refl, sym, ◌∙◌, Bool, true, false, Option, none, some, List, [], ◌∷◌, ite, arith,
  if◌then◌else◌, Result, ok, err, wrap_err, Option-cases, inl, inr,
}
use libreseed.Text.{Bytes, bytes_discrete}
use libreseed.GoMap.{lookup, delete}
use libreseed.GoMap.Laws.{lookup-insert, lookup-delete}
use libreseed.Storage.{Env, Files, RemoveError, safe_remove}
use libreseed.Daemon.PackageInfo.{PackageInfo, validate_package_info}
use libreseed.Daemon.Packages.{
  PackageManager, Yaml, World, ManagerError, SaveError, not_saved, not_found, add_package,
  remove_package, update_announcement_status, announce, commit, after_removal, with_packages,
}
use libreseed.Daemon.Packages.Methods.{add_package_cases}
use libreseed.Daemon.Packages.Runs.{Call, adds, removes, marks, step, run}

-- The abstract database.
abbrev pub Database : Type 0
Database = Bytes → Option PackageInfo

abbrev pub database_of : {D : Type 0} → World D → Database
database_of w id = lookup bytes_discrete id w.manager.packages

-- What a call that goes through does to the map.
abbrev pub effect : {D : Type 0} → Call D → Database → Database
effect (adds env info) m key = ite (bytes_discrete key info.package_id) (some info) (m key)
effect (removes env refused id) m key = ite (bytes_discrete key id) none (m key)
effect (marks env id announced now) m key =
    ite (bytes_discrete key id) (Option.map (announce announced now) (m id)) (m key)

-- A call goes through if it returns no error, or one of saving: the map is changed before it is
-- saved.
abbrev pub goes_through : Result ManagerError (Unit {0}) → Bool
goes_through (ok u) = true
goes_through (err (not_saved e)) = true
goes_through (err _) = false

-- What the map must be for a call to go through.
abbrev pub IsPossible : {D : Type 0} → Call D → Database → Type 0
IsPossible (adds env info) m =
    (validate_package_info (some info) ≡ ok tt) × (m info.package_id ≡ none)
IsPossible (removes env refused id) m = (info : PackageInfo) × (m id ≡ some info)
IsPossible (marks env id announced now) m = (info : PackageInfo) × (m id ≡ some info)

-- A transition of the abstract database with the result that the caller sees.
pub record IsTransition {D : Type 0} (call : Call D) (r : Result ManagerError (Unit {0}))
    (m n : Database) : Type 0 where
  pub possible : goes_through r ≡ true → IsPossible call m
  pub changed : (key : Bytes) → n key ≡ (if goes_through r then effect call m key else m key)

goes_through-saved : (r : Result SaveError (Unit {0})) → goes_through (wrap_err not_saved r) ≡ true
goes_through-saved (ok u) = refl
goes_through-saved (err e) = refl

module _ {D : Type 0} (yaml : Yaml D) where
  -- The result of a call.
  pub result_of : World D → Call D → Result ManagerError (Unit {0})
  result_of w (adds env info) = (add_package yaml env w info).0
  result_of w (removes env refused id) = (remove_package yaml env refused w id).0
  result_of w (marks env id announced now) =
      (update_announcement_status yaml env w id announced now).0

  goes_through-commit :
      (env : Env D) (pm : PackageManager) (files : Files D)
      → goes_through (commit yaml env pm files).0 ≡ true
  unfolding commit
  goes_through-commit env pm files = goes_through-saved _

  manager-commit :
      (env : Env D) (pm : PackageManager) (files : Files D)
      → (commit yaml env pm files).1.manager ≡ pm
  unfolding commit
  manager-commit env pm files = refl

  commit-IsTransition :
      (w : World D) (env : Env D) (pm : PackageManager) (files : Files D) (call : Call D)
      → IsPossible call (database_of w)
      → ((key : Bytes) → lookup bytes_discrete key pm.packages ≡ effect call (database_of w) key)
      → let r = commit yaml env pm files in IsTransition call r.0 (database_of w) (database_of r.1)
  commit-IsTransition w env pm files call p h = record {
    possible = λ _. p;
    changed = λ key. rw (goes_through-commit env pm files, manager-commit env pm files) (h key);
  }

  -- A call that is refused changes nothing.
  refused-IsTransition :
      (w : World D) (e : ManagerError) (call : Call D)
      → goes_through (err e) ≡ false
      → IsTransition call (err e) (database_of w) (database_of w)
  refused-IsTransition w e call h = record {
    possible = λ g. absurd (ground arith);
    changed = λ key. rw h refl;
  }

  add-IsTransition :
      (w : World D) (env : Env D) (info : PackageInfo)
      → let r = add_package yaml env w info in
        IsTransition (adds env info) r.0 (database_of w) (database_of r.1)
  add-IsTransition w env info =
      add_package_cases yaml env w
        (λ r. IsTransition (adds env info) r.0 (database_of w) (database_of r.1)) info
        (λ e h. refused-IsTransition w _ (adds env info) refl)
        (λ old h. refused-IsTransition w _ (adds env info) refl)
        (λ v h.
          commit-IsTransition w env _ w.files (adds env info) (v, h)
            (λ key. lookup-insert bytes_discrete info.package_id key info w.manager.packages))

  removal-IsTransition :
      (w : World D) (env : Env D) (refused : Bool) (id : Bytes) (info : PackageInfo)
      (r : Result RemoveError (Unit {0}) × Files D)
      → lookup bytes_discrete id w.manager.packages ≡ some info
      → let s = after_removal yaml env id w r in
        IsTransition (removes env refused id) s.0 (database_of w) (database_of s.1)
  removal-IsTransition w env refused id info (err e, files) h = record {
    possible = λ g. absurd (ground arith);
    changed = λ key. refl;
  }
  removal-IsTransition w env refused id info (ok u, files) h =
      commit-IsTransition w env
        (with_packages w.manager (delete bytes_discrete id w.manager.packages)) files
        (removes env refused id) (info, h)
        (λ key. lookup-delete bytes_discrete id key w.manager.packages)

  remove-IsTransition :
      (w : World D) (env : Env D) (refused : Bool) (id : Bytes)
      → let r = remove_package yaml env refused w id in
        IsTransition (removes env refused id) r.0 (database_of w) (database_of r.1)
  unfolding remove_package
  remove-IsTransition w env refused id =
      elim (Option-cases (lookup bytes_discrete id w.manager.packages)) [
        | inl h ↦
            rw (h, remove_package)
              (refused-IsTransition w (not_found id) (removes env refused id) refl)
        | inr (info, h) ↦
            rw (h, remove_package)
              (removal-IsTransition w env refused id info
                (safe_remove refused info.file_path w.files) h)
      ]

  mark-IsTransition :
      (w : World D) (env : Env D) (id : Bytes) (announced : Bool) (now : ℕ)
      → let r = update_announcement_status yaml env w id announced now in
        IsTransition (marks env id announced now) r.0 (database_of w) (database_of r.1)
  unfolding update_announcement_status
  mark-IsTransition w env id announced now =
      elim (Option-cases (lookup bytes_discrete id w.manager.packages)) [
        | inl h ↦
            rw (h, update_announcement_status)
              (refused-IsTransition w (not_found id) (marks env id announced now) refl)
        | inr (info, h) ↦
            rw (h, update_announcement_status)
              (commit-IsTransition w env _ w.files (marks env id announced now) (info, h)
                (λ key.
                  lookup-insert bytes_discrete id key (announce announced now info)
                    w.manager.packages
                  ∙ sym (rw h refl)))
      ]

  step-IsTransition :
      (w : World D) (call : Call D)
      → IsTransition call (result_of w call) (database_of w) (database_of (step yaml w call))
  unfolding result_of step
  step-IsTransition w (adds env info) = add-IsTransition w env info
  step-IsTransition w (removes env refused id) = remove-IsTransition w env refused id
  step-IsTransition w (marks env id announced now) = mark-IsTransition w env id announced now

  -- The results of a sequence of calls.
  pub results_of : World D → List (Call D) → List (Result ManagerError (Unit {0}))
  results_of w [] = []
  results_of w (call ∷ calls) = result_of w call ∷ results_of (step yaml w call) calls

-- A sequence of transitions of the abstract database, with the results.
pub data Trace {D : Type 0}
    : Database → List (Call D) → List (Result ManagerError (Unit {0})) → Database → Type 0 where
  done : {m : Database} → Trace m [] [] m
  next :
      {call : Call D} {calls : List (Call D)} {r : Result ManagerError (Unit {0})}
      {rs : List (Result ManagerError (Unit {0}))} {m n last : Database}
      → IsTransition call r m n
      → Trace n calls rs last
      → Trace m (call ∷ calls) (r ∷ rs) last

-- Any sequence of calls of the package database, whichever system calls fail in them, is a
-- sequence of transitions of a map from ids to packages with the same results. A call that returns
-- no error, or an error of saving, was possible and has its effect on the map; every other call
-- leaves the map as it was.
pub run-Trace :
    {D : Type 0} (yaml : Yaml D) (w : World D) (calls : List (Call D))
    → Trace (database_of w) calls (results_of yaml w calls) (database_of (run yaml w calls))
unfolding run results_of
run-Trace yaml w [] = done
run-Trace yaml w (call ∷ calls) =
    next (step-IsTransition yaml w call) (run-Trace yaml (step yaml w call) calls)
