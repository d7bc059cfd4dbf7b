-- ===== src/Tests/Init.antt =====
-- A database with one package is saved, and a new daemon reads it.
use mathlib.Core.Option.{Option, none, some}
use libreseed.Prelude.{
  ◌≡◌, ◌≢◌, refl, true, List, [], ◌∷◌, ◌++◌, map, arith, ok, ℕ_discrete, signed_lt,
}
use libreseed.Text.{Bytes, codes, bytes_discrete, bytes_eq}
use libreseed.Text.Hex.{encode}
use libreseed.GoMap.{lookup, insert, delete}
use libreseed.Storage.{Files, file_exists, Env, write_file, atomic_write_file}
use libreseed.Storage.OsFiles.{os_write_file}
use libreseed.Crypto.KeyManager.{ensure_keys_exist, generate_and_save_keypair, with_keys}
use libreseed.Daemon.AddHandler.{info_hash_of}
use libreseed.Daemon.Config.{default_config, validate_daemon_config}
use libreseed.Daemon.PackageInfo.{PackageInfo}
use libreseed.Daemon.Packages.{
  PackageManager, Yaml, IsRoundTrip, save_state, load_state, package_exists,
}
use libreseed.Daemon.Lifecycle.{StartEnv, start, start_listening, with_client, launch, populate}
use libreseed.Daemon.Lifecycle.Populate.{is_tracked}
use libreseed.Dht.Client
use libreseed.Dht.Client.{new_client}
use libreseed.Daemon.Init.{InitEnv, Built, build, new, without_keys}
use libreseed.Daemon.Init.Reads.{IsSound, IsBuilt, new-IsBuilt}
use libreseed.Daemon.Init.Restarts.{is_tracked-new}
use libreseed.Tests.Samples.{thirty_two, sixty_four, sample_info}
use libreseed.Tests.Files.{key_env, key_env-IsKeySource}
use libreseed.Tests.Packages.{one_package-IsValid}

PackageInfo-discrete : Discrete PackageInfo
PackageInfo-discrete = hlevel ℕ_discrete

-- A stand-in for yaml that knows one list.
marked : {l : List PackageInfo} → Dec (l ≡ sample_info ∷ []) → Option Bytes
marked (yes _) = some []
marked (no _) = none

abbrev known : Bytes → Option (List (Option PackageInfo))
known [] = some (some sample_info ∷ [])
known (_ ∷ _) = none

PackageInfos-discrete : Discrete (List PackageInfo)
PackageInfos-discrete = hlevel ℕ_discrete

abbrev yaml : Yaml Bytes
yaml = record {
  marshal = λ l. marked (PackageInfos-discrete l (sample_info ∷ []));
  unmarshal = known;
}

marked-known :
    (l : List PackageInfo) (d : Bytes) (e : Dec (l ≡ sample_info ∷ []))
    → marked e ≡ some d
    → known d ≡ some (map some l)
unfolding marked
marked-known l d (yes q) h = ground arith
marked-known l d (no q) h = absurd (cc)

yaml-IsRoundTrip : IsRoundTrip yaml
yaml-IsRoundTrip l d h = marked-known l d (PackageInfos-discrete l (sample_info ∷ [])) h

marked_yes :
    (e : Dec (◌≡◌ {A = List PackageInfo} (sample_info ∷ []) (sample_info ∷ [])))
    → marked e ≡ some []
unfolding marked
marked_yes (yes q) = refl
marked_yes (no q) = absurd (q refl)

abbrev joined : List Bytes → Bytes
joined [] = []
joined (a ∷ []) = a
joined (a ∷ b ∷ l) = a ++ codes "/" ++ joined (b ∷ l)

abbrev init_env : InitEnv
init_env = record {
  default_storage = codes "/m/storage";
  storage_made = true;
  packages_made = true;
  join = joined;
  dir = λ _. codes "/m";
  clean = λ path. path;
  user_config_dir = none;
  system = key_env;
  yaml = yaml;
  meta_readable = true;
  now = 1;
}

abbrev stored : PackageManager
stored = record {
  packages = (sample_info.package_id, sample_info) ∷ [];
  storage_dir = codes "/m/packages";
  meta_file = codes "/m/packages.yaml";
}

abbrev save_env : Env Bytes
save_env = record { fault = none; cleanup = true; tmp = codes "/m/.tmp"; empty = []; partial = [] }

abbrev saved : Files Bytes
saved = (codes "/m/packages.yaml", record { content = []; mode = 0o644 }) ∷ []

saves : save_state yaml save_env stored [] ≡ (ok tt, saved)
unfolding save_state write_file atomic_write_file insert lookup bytes_discrete delete
saves = rw (marked_yes (PackageInfos-discrete (sample_info ∷ []) (sample_info ∷ []))) refl

init_env-IsSound : IsSound init_env (default_config (codes "/m/storage"))
init_env-IsSound = record {
  named = λ e. ground arith;
  apart = λ e. ground arith;
  not_private = λ e. ground arith;
  not_public = λ e. ground arith;
  source = key_env-IsKeySource;
}

abbrev made : Built
made =
    build init_env (default_config (codes "/m/storage"))
      (with_keys (without_keys (codes "/m/keys")) (sixty_four 7) (thirty_two 7)) stored

abbrev disk : Files Bytes
disk =
    (codes "/m/packages.yaml", record { content = []; mode = 0o644 })
    ∷ (codes "/m/keys/private.key", record { content = encode (sixty_four 7); mode = 0o600 })
    ∷ (codes "/m/keys/public.key", record { content = encode (thirty_two 7); mode = 0o644 })
    ∷ []

news : new init_env none saved ≡ (ok made, disk)
unfolding new ensure_keys_exist os_write_file validate_daemon_config load_state signed_lt lookup
    insert bytes_discrete bytes_eq generate_and_save_keypair file_exists
news = refl

new-IsBuilt_example : IsBuilt init_env (default_config (codes "/m/storage")) saved made disk
new-IsBuilt_example = new-IsBuilt init_env none saved made disk init_env-IsSound news

abbrev start_env : StartEnv
start_env = record { listen_error = none; connects = true; serves = true; dht_error = []; now = 2 }

starts : (start made.daemon start_env).0 ≡ ok tt
unfolding start start_listening with_client launch populate Client.start new_client
starts = refl

listed : package_exists stored sample_info.package_id ≡ true
unfolding package_exists lookup bytes_discrete
listed = refl

tmp_apart : stored.meta_file ≢ save_env.tmp
tmp_apart e = ground arith

is_tracked-new_example :
    (made.daemon.manager ≡ stored)
    × (h : Bytes) × (info_hash_of sample_info.package_id ≡ some h)
    × (is_tracked h (start made.daemon start_env).1.announcer ≡ true)
is_tracked-new_example =
    is_tracked-new init_env none save_env stored [] saved disk made start_env sample_info.package_id
      init_env-IsSound yaml-IsRoundTrip refl refl tmp_apart one_package-IsValid saves news refl
      starts listed
