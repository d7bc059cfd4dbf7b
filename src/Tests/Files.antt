-- ===== src/Tests/Files.antt =====
-- Files: a key pair that is generated, a value in a YAML file, a copy.
use mathlib.Core.Option.{Option, none, some}
use libreseed.Prelude.{ℕ, ◌≡◌, ◌≢◌, refl, subst, arith, true, [], ◌∷◌, ◌++◌, All, ok}
use libreseed.Text.{Bytes, IsByte, codes, bytes_discrete}
use libreseed.GoMap.{lookup, delete}
use libreseed.Storage.{Files, Env}
use libreseed.Storage.OsFiles.{writes, os_write_file}
use libreseed.Storage.Yaml.{YamlOf, save_yaml_file, save_marshalled, marshal_yaml, atomic_save}
use libreseed.Storage.Yaml.Saving.{IsSaved, IsSteady, save_yaml_file-IsSaved}
use libreseed.Storage.Copy.{copy_file}
use libreseed.Storage.Copy.Copies.{IsCopied, copy_file-IsCopied}
use libreseed.Crypto.KeyManager.{
  KeyManager, KeyEnv, private_path, public_path, ensure_keys_exist, generate_and_save_keypair,
  store_generated, save_pair,
}
use libreseed.Crypto.KeyManager.Pairs.{IsPair}
use libreseed.Crypto.KeyManager.Storing.{IsKeySource}
use libreseed.Crypto.KeyManager.Restarts.{IsEnsured, ensure_keys_exist-IsEnsured}
use libreseed.Tests.Samples.{thirty_two, sixty_four}

abbrev manager : KeyManager
manager = record { keys_dir = codes "/k/"; private_key = none; public_key = none }

abbrev pub key_env : KeyEnv
key_env = record {
  join = λ dir name. dir ++ name;
  generated = some (thirty_two 7, sixty_four 7);
  dir_made = true;
  private_write = writes;
  public_write = writes;
  private_readable = true;
  public_readable = true;
  private_removable = true;
  public_removable = true;
}

paths_apart : private_path key_env manager.keys_dir ≢ public_path key_env manager.keys_dir
paths_apart e = ground arith

pub key_env-IsKeySource : IsKeySource key_env
key_env-IsKeySource p q e =
    let same : ◌≡◌ {A = Bytes × Bytes} (thirty_two 7, sixty_four 7) (q, p) = ground arith in
    subst (λ keys. IsPair keys.1 keys.0 × All IsByte keys.1 × All IsByte keys.0) same
      (
        record { private_size = refl; public_size = refl; derived = refl },
        ground arith,
        ground arith,
      )

-- A private key without its public key is on the disk at first.
abbrev half_pair : Files Bytes
half_pair = (codes "/k/private.key", record { content = []; mode = 0o600 }) ∷ []

keys_ensured : (ensure_keys_exist manager key_env half_pair).result ≡ ok tt
unfolding ensure_keys_exist generate_and_save_keypair store_generated save_pair os_write_file lookup
    bytes_discrete delete
keys_ensured = refl

ensure_keys_exist-IsEnsured_example :
    IsEnsured key_env manager (ensure_keys_exist manager key_env half_pair)
ensure_keys_exist-IsEnsured_example =
    ensure_keys_exist-IsEnsured manager key_env half_pair paths_apart key_env-IsKeySource
      keys_ensured

abbrev env : Env Bytes
env = record { fault = none; cleanup = true; tmp = codes "/c/.tmp"; empty = []; partial = 1 ∷ [] }

abbrev target : Bytes
target = codes "/c/config.yaml"

target_apart : target ≢ env.tmp
target_apart e = ground arith

-- A number as a file of one byte.
abbrev read_byte : Bytes → ℕ → Option ℕ
read_byte (n ∷ []) old = some n
read_byte _ old = none

abbrev byte_yaml : YamlOf ℕ Bytes
byte_yaml = record { marshal = λ n. some (n ∷ []); unmarshal = read_byte }

abbrev disk : Files Bytes
disk = (target, record { content = 9 ∷ []; mode = 0o644 }) ∷ []

save_yaml_file-IsSaved_example :
    IsSaved env byte_yaml target 5 disk (save_yaml_file env byte_yaml target 5 disk)
    × All
        (IsSteady env byte_yaml target 5 disk)
        (save_yaml_file env byte_yaml target 5 disk).1.history
save_yaml_file-IsSaved_example = save_yaml_file-IsSaved env byte_yaml target 5 disk target_apart

saved : (save_yaml_file env byte_yaml target 5 disk).0 ≡ ok tt
unfolding save_yaml_file save_marshalled marshal_yaml atomic_save
saved = refl

byte_yaml-reads :
    (content : Bytes) → byte_yaml.marshal 5 ≡ some content → byte_yaml.unmarshal content 0 ≡ some 5
byte_yaml-reads content e =
    let same : ◌≡◌ {A = Bytes} (5 ∷ []) content = ground arith in
    subst (λ c. read_byte c 0 ≡ some 5) same refl

abbrev backup : Bytes
backup = codes "/c/backup"

backup_apart : backup ≢ env.tmp
backup_apart e = ground arith

copy_file-IsCopied_example :
    IsCopied env target backup disk (copy_file env true true target backup disk)
copy_file-IsCopied_example = copy_file-IsCopied env target backup disk true true backup_apart
