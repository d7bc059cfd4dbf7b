-- ===== src/Tests/Handlers.antt =====
-- The package handlers with the sample package: it is added once, and once more, and removed.
use mathlib.Core.Option.{some}
use libreseed.Prelude.{◌≡◌, ◌≢◌, ◌⊎◌, refl, true, false, [], ◌++◌, ok, signed_lt, add_word}
use libreseed.Text.{Bytes, bytes_discrete, codes, is_abs, bytes_eq}
use libreseed.Text.Hex.{is_hex, encode, decode}
use libreseed.GoMap.{lookup, insert, delete}
use libreseed.Storage.{file_exists, write_file, atomic_write_file}
use libreseed.Crypto.Keys.{fingerprint}
use libreseed.Crypto.Signer.{verify, verify_dual_signature}
use libreseed.Package.Manifest.{
  Package, validate_package, validate_manifest, validate_dependencies, validate_optional_config,
  validate_entries,
}
use libreseed.Daemon.Packages.{
  get_package, remove_package, add_package, update_announcement_status, save_state,
}
use libreseed.Daemon.PackageInfo.{validate_package_info}
use libreseed.Daemon.AddHandler.{
  info_hash_of, Daemon, AddRequest, AddEnv, accept, handle_package_add,
}
use libreseed.Daemon.AddHandler.Accepting.{Authentic, handle_package_add-Authentic}
use libreseed.Daemon.AddHandler.Storing.{
  destination, handle_package_add_again, Stored, handle_package_add_created,
}
use libreseed.Dht.Announcer
use libreseed.Daemon.RemoveHandler.{
  RemoveEnv, RemoveRequest, delete_method, find_listed, withdraw, handle_package_remove,
}
use libreseed.Tests.Samples.{
  twenty, Document, packed, other, unmarshal_packed, sample_yaml, sample_prims, no_fault,
  sample_package, sample_info, empty_world, one_world,
}

abbrev pub sample_env : AddEnv Document
sample_env = record {
  prims = sample_prims;
  unmarshal_package = unmarshal_packed;
  marshal_manifest = λ m. some m.package_name;
  yaml = sample_yaml;
  join = λ a b. a ++ codes "/" ++ b;
  write_works = true;
  partial = some other;
  remove_works = true;
  now = 6;
  status_now = 7;
  save_env = no_fault;
  status_env = no_fault;
}

abbrev pub sample_request : AddRequest Document
sample_request = record {
  is_post = true;
  form_parsed = true;
  file_found = true;
  file_read = true;
  content = packed sample_package;
  filename = codes "tool";
}

abbrev pub fresh_daemon : Daemon Document
fresh_daemon = record {
  world = empty_world;
  enable_dht = true;
  dht_ready = true;
  announcer = [];
  active_packages = 0;
  total_packages_seeded = 0;
}

abbrev loaded_daemon : Daemon Document
loaded_daemon = record fresh_daemon { world = one_world }

sample_accepted : accept sample_env sample_request ≡ ok sample_package
unfolding accept validate_package validate_manifest validate_dependencies validate_optional_config
    validate_entries verify verify_dual_signature is_hex bytes_eq signed_lt
sample_accepted = refl

sample_known :
    lookup bytes_discrete sample_package.package_id loaded_daemon.world.manager.packages
    ≡ some sample_info
unfolding lookup bytes_discrete
sample_known = refl

handle_package_add-Authentic_example :
    (((handle_package_add sample_env sample_request fresh_daemon).1 ≡ fresh_daemon)
      × ((handle_package_add sample_env sample_request fresh_daemon).0 ≢ 201))
    ⊎ ((pkg : Package) × (sample_env.unmarshal_package sample_request.content ≡ some pkg)
        × Authentic sample_env pkg)
handle_package_add-Authentic_example =
    handle_package_add-Authentic sample_env sample_request fresh_daemon

handle_package_add_again_example :
    let r = handle_package_add sample_env sample_request loaded_daemon in
    (r.0 ≡ 500)
    × (r.1.world.manager ≡ loaded_daemon.world.manager)
    × (file_exists (destination sample_env sample_request loaded_daemon) r.1.world.files ≡ false)
handle_package_add_again_example =
    handle_package_add_again sample_env sample_request loaded_daemon sample_package sample_info refl
      refl sample_accepted sample_known

abbrev pub after_adding : Daemon Document
after_adding = (handle_package_add sample_env sample_request fresh_daemon).1

pub sample_created : handle_package_add sample_env sample_request fresh_daemon ≡ (201, after_adding)
unfolding handle_package_add add_package validate_package_info fingerprint encode is_hex is_abs
    signed_lt save_state write_file atomic_write_file lookup insert bytes_discrete validate_package
    bytes_eq validate_manifest validate_dependencies validate_optional_config validate_entries
    verify_dual_signature verify update_announcement_status Announcer.add_package add_word delete
    decode
sample_created = refl

handle_package_add_created_example :
    (pkg : Package) × Stored sample_env sample_request fresh_daemon after_adding pkg
handle_package_add_created_example =
    handle_package_add_created sample_env sample_request fresh_daemon after_adding sample_created

abbrev hash_of_package : Bytes
hash_of_package = twenty 170

abbrev pub remove_env : RemoveEnv Document
remove_env = record { yaml = sample_yaml; refused = false; save_env = no_fault }

abbrev refusing_env : RemoveEnv Document
refusing_env = record { yaml = sample_yaml; refused = true; save_env = no_fault }

abbrev remove_request : RemoveRequest
remove_request = record {
  method = delete_method;
  body_decoded = false;
  package_id = sample_info.package_id;
}

abbrev announcing_daemon : Daemon Document
announcing_daemon = record loaded_daemon {
  announcer = Announcer.add_package [] hash_of_package (codes "tool") [] [];
  active_packages = 1;
}

sample_found : find_listed announcing_daemon.world.manager remove_request ≡ ok sample_info
unfolding find_listed get_package lookup bytes_discrete
sample_found = refl

sample_hash : info_hash_of remove_request.package_id ≡ some hash_of_package
unfolding info_hash_of decode
sample_hash = refl

abbrev after_removing : Daemon Document
after_removing = (handle_package_remove remove_env remove_request announcing_daemon).1

sample_gone :
    handle_package_remove remove_env remove_request announcing_daemon ≡ (200, after_removing)
unfolding handle_package_remove find_listed withdraw info_hash_of decode get_package remove_package
    save_state write_file atomic_write_file lookup bytes_discrete
sample_gone = refl
