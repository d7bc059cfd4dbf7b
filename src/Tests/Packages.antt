-- ===== src/Tests/Packages.antt =====
-- The package database: one package is added, saved, read back and removed.
use mathlib.Core.Option.{none, some}
use libreseed.Prelude.{◌≡◌, ◌≢◌, refl, arith, true, false, [], ◌∷◌, ok, err, ite, List, signed_lt}
use libreseed.Text.{Bytes, bytes_discrete}
use libreseed.Text.{is_abs}
use libreseed.Text.Hex.{is_hex}
use libreseed.GoMap.{lookup, insert, Distinct}
use libreseed.Storage.{Env, not_closed, write_file, atomic_write_file}
use libreseed.Daemon.PackageInfo.{validate_package_info, sound}
use libreseed.Daemon.Packages.{
  World, already_exists, not_saved, not_stored, add_package, remove_package, save_state, load_state,
}
use libreseed.Daemon.Packages.Invariant.{IsValid}
use libreseed.Daemon.Packages.Runs.{Call, adds, removes, marks, run}
use libreseed.Daemon.Packages.Refinement.{Trace, database_of, results_of, run-Trace}
use libreseed.Daemon.Packages.Persist.{load_state-save_state}
use libreseed.Daemon.Packages.Methods.{with_info}
use libreseed.Daemon.Packages.Adding.{add_package_ok, add_package_unsaved}
use libreseed.Daemon.Packages.Removing.{remove_package_ok}
use libreseed.Tests.Samples.{
  Document, sample_yaml, sample_yaml-IsRoundTrip, no_fault, sample_info, empty_world, one_package,
  one_world,
}

sample_info_valid : validate_package_info (some sample_info) ≡ ok tt
unfolding validate_package_info is_hex is_abs signed_lt
sample_info_valid = refl

empty-IsValid : IsValid empty_world.manager.packages
empty-IsValid = record { distinct = tt; keyed = tt; well_formed = tt }

abbrev calls : List (Call Document)
calls =
    adds no_fault sample_info
    ∷ marks no_fault sample_info.package_id true 9
    ∷ removes (record no_fault { fault = some not_closed }) false sample_info.package_id
    ∷ []

run-Trace_example :
    Trace
      (database_of empty_world)
      calls
      (results_of sample_yaml empty_world calls)
      (database_of (run sample_yaml empty_world calls))
run-Trace_example = run-Trace sample_yaml empty_world calls

abbrev after_adding : World Document
after_adding = (add_package sample_yaml no_fault empty_world sample_info).1

sample_added : add_package sample_yaml no_fault empty_world sample_info ≡ (ok tt, after_adding)
unfolding add_package validate_package_info is_hex is_abs signed_lt save_state write_file
    atomic_write_file lookup insert bytes_discrete
sample_added = refl

meta_apart : empty_world.manager.meta_file ≢ no_fault.tmp
meta_apart e = ground arith

add_package_ok_example :
    (lookup bytes_discrete sample_info.package_id empty_world.manager.packages ≡ none)
    × ((key : Bytes)
        → lookup bytes_discrete key after_adding.manager.packages
          ≡ ite
              (bytes_discrete key sample_info.package_id)
              (some sample_info)
              (lookup bytes_discrete key empty_world.manager.packages))
    × (load_state sample_yaml true after_adding.manager after_adding.files
        ≡ ok after_adding.manager)
add_package_ok_example =
    add_package_ok sample_yaml no_fault empty_world sample_info after_adding sample_yaml-IsRoundTrip
      meta_apart empty-IsValid sample_added

abbrev not_saving : Env Document
not_saving = record no_fault { fault = some not_closed }

sample_unsaved :
    save_state sample_yaml not_saving
      (with_info sample_yaml not_saving empty_world sample_info)
      empty_world.files
    ≡ (
      err (not_stored not_closed),
      (save_state sample_yaml not_saving
          (with_info sample_yaml not_saving empty_world sample_info)
          empty_world.files).1,
    )
unfolding save_state write_file atomic_write_file
sample_unsaved = refl

sample_new : lookup bytes_discrete sample_info.package_id empty_world.manager.packages ≡ none
unfolding lookup
sample_new = refl

add_package_unsaved_example :
    let r = add_package sample_yaml not_saving empty_world sample_info in
    (r.0 ≡ err (not_saved (not_stored not_closed)))
    × (lookup bytes_discrete sample_info.package_id r.1.manager.packages ≡ some sample_info)
    × (add_package sample_yaml no_fault r.1 sample_info
        ≡ (err (already_exists sample_info.package_id), r.1))
add_package_unsaved_example =
    add_package_unsaved sample_yaml not_saving empty_world sample_info (not_stored not_closed)
      (save_state sample_yaml not_saving (with_info sample_yaml not_saving empty_world sample_info)
        empty_world.files).1
      no_fault sample_info_valid sample_new sample_unsaved

sample_saved :
    save_state sample_yaml no_fault one_package one_world.files
    ≡ (ok tt, (save_state sample_yaml no_fault one_package one_world.files).1)
unfolding save_state write_file atomic_write_file
sample_saved = refl

one_package_unique : Distinct bytes_discrete one_package.packages
unfolding lookup
one_package_unique = (refl, tt)

load_state-save_state_example :
    load_state sample_yaml true one_package
      (save_state sample_yaml no_fault one_package one_world.files).1
    ≡ ok one_package
load_state-save_state_example =
    load_state-save_state sample_yaml no_fault one_package one_world.files
      (save_state sample_yaml no_fault one_package one_world.files).1 sample_yaml-IsRoundTrip
      meta_apart one_package_unique (refl, tt) sample_saved

pub one_package-IsValid : IsValid one_package.packages
unfolding validate_package_info
one_package-IsValid = record {
  distinct = one_package_unique;
  keyed = (refl, tt);
  well_formed = (sound sample_info sample_info_valid, tt);
}

abbrev after_removing : World Document
after_removing = (remove_package sample_yaml no_fault false one_world sample_info.package_id).1

sample_removed :
    remove_package sample_yaml no_fault false one_world sample_info.package_id
    ≡ (ok tt, after_removing)
unfolding remove_package save_state write_file atomic_write_file lookup bytes_discrete
sample_removed = refl

sample_known :
    lookup bytes_discrete sample_info.package_id one_world.manager.packages ≡ some sample_info
unfolding lookup bytes_discrete
sample_known = refl

remove_package_ok_example :
    ((key : Bytes)
      → lookup bytes_discrete key after_removing.manager.packages
        ≡ ite
            (bytes_discrete key sample_info.package_id)
            none
            (lookup bytes_discrete key one_world.manager.packages))
    × (lookup bytes_discrete sample_info.file_path after_removing.files ≡ none)
    × (load_state sample_yaml true after_removing.manager after_removing.files
        ≡ ok after_removing.manager)
remove_package_ok_example =
    remove_package_ok sample_yaml no_fault one_world sample_info.package_id false after_removing
      sample_info sample_yaml-IsRoundTrip meta_apart one_package-IsValid sample_known
      (λ e. ground arith) (λ e. ground arith) sample_removed
