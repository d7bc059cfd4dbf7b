-- ===== src/Crypto/KeyManager.antt =====
-- pkg/crypto/keymanager.go: the key pair of the daemon, in memory and in two files. The generator
-- of keys, `filepath.Join` and the system calls are parameters.
pub mod Pairs
pub mod Storing
pub mod Restarts
pub mod Others
use libreseed.Prelude.{
  ℕ, ◌≡◌, Bool, true, false, not, ◌&&◌, ◌||◌, Option, none, some, List, [], ◌∷◌, ◌==◌, length, drop,
  is_some, if◌then◌else◌, Result, ok, err, fail_if, ◌>>◌, ◌>>=◌,
}
use libreseed.Text.{Bytes, codes, bytes_discrete}
use libreseed.Text.Hex.{encode, decode}
use libreseed.GoMap.{lookup, insert, delete}
use libreseed.Storage.{File, Files}
use libreseed.Storage.OsFiles.{Write, read_file, os_write_file}
use libreseed.Crypto.Keys.{Primitives, PublicKey, KeyError, new_public_key, fingerprint}

-- `none` is a nil slice.
pub record KeyManager : Type 0 where
  pub keys_dir : Bytes
  pub private_key : Option Bytes
  pub public_key : Option Bytes

-- `generated` is the answer of `ed25519.GenerateKey`: the public and the private key.
pub record KeyEnv : Type 0 where
  pub join : Bytes → Bytes → Bytes
  pub generated : Option (Bytes × Bytes)
  pub dir_made : Bool
  pub private_write : Write Bytes
  pub public_write : Write Bytes
  pub private_readable : Bool
  pub public_readable : Bool
  pub private_removable : Bool
  pub public_removable : Bool

pub data KeyFileError : Type 0 where
  private_not_read public_not_read private_not_decoded public_not_decoded bad_private_size
        bad_public_size keys_differ not_generated no_keys_dir private_not_written
        public_not_written :
      KeyFileError

abbrev pub private_path : KeyEnv → Bytes → Bytes
private_path env dir = env.join dir (codes "private.key")

abbrev pub public_path : KeyEnv → Bytes → Bytes
public_path env dir = env.join dir (codes "public.key")

-- `fileExists`.
abbrev pub has_file : Bytes → Files Bytes → Bool
has_file path files = is_some (lookup bytes_discrete path files)

-- The loop of `bytesEqual` over two slices of one length.
unfoldable pub equal_each : Bytes → Bytes → Bool
equal_each [] b = true
equal_each (x ∷ a) [] = true
equal_each (x ∷ a) (y ∷ b) = x == y && equal_each a b

unfoldable pub bytes_equal : Bytes → Bytes → Bool
unfolding equal_each
bytes_equal a b = if not (length a == length b) then false else equal_each a b

abbrev pub or_error : {A : Type 0} → Option A → KeyFileError → Result KeyFileError A
or_error none e = err e
or_error (some a) e = ok a

-- The sizes of the keys, and that they belong together.
unfoldable pub validate_pair : Bytes → Bytes → Result KeyFileError (Bytes × Bytes)
validate_pair private_key public_key = do
  fail_if (not (length private_key == 64)) bad_private_size
  fail_if (not (length public_key == 32)) bad_public_size
  fail_if (not (bytes_equal (drop 32 private_key) public_key)) keys_differ
  ok (private_key, public_key)

-- The checks of `LoadKeys` on the contents of the two files: the private and the public key.
unfoldable pub check_pair : Bytes → Bytes → Result KeyFileError (Bytes × Bytes)
unfolding validate_pair
check_pair private_hex public_hex = do
  private_key ← or_error (decode private_hex) private_not_decoded
  public_key ← or_error (decode public_hex) public_not_decoded
  validate_pair private_key public_key

unfoldable pub read_pair : KeyEnv → Bytes → Files Bytes → Result KeyFileError (Bytes × Bytes)
read_pair env dir files = do
  private_hex ←
      or_error (read_file env.private_readable (private_path env dir) files) private_not_read
  public_hex ← or_error (read_file env.public_readable (public_path env dir) files) public_not_read
  check_pair private_hex public_hex

abbrev pub with_keys : KeyManager → Bytes → Bytes → KeyManager
with_keys km private_key public_key = record km {
  private_key = some private_key;
  public_key = some public_key;
}

-- `LoadKeys`.
unfoldable pub load_keys :
    KeyManager → KeyEnv → Files Bytes → Result KeyFileError (Unit {0}) × KeyManager
load_keys km env files = elim (read_pair env km.keys_dir files) [
  | ok keys ↦ (ok tt, with_keys km keys.0 keys.1)
  | err e ↦ (err e, km)
]

-- The two writes of `GenerateAndSaveKeypair`.
unfoldable pub save_pair :
    KeyEnv → Bytes → Bytes → Bytes → Files Bytes → Result KeyFileError (Unit {0}) × Files Bytes
unfolding os_write_file
save_pair env dir private_key public_key files =
    let (first, files1) =
      os_write_file env.private_write (private_path env dir) (encode private_key) 0o600 files in
    let (second, files2) =
      os_write_file env.public_write (public_path env dir) (encode public_key) 0o644 files1 in
    if not first
    then (err private_not_written, files1)
    else if not second
    then (err public_not_written, files2)
    else (ok tt, files2)

-- The result of a call that changes the manager and the disk.
pub record KeyResult : Type 0 where
  pub result : Result KeyFileError (Unit {0})
  pub manager : KeyManager
  pub files : Files Bytes

-- `GenerateAndSaveKeypair` with the public and the private key that were generated: they are in
-- the manager before they are on the disk.
unfoldable pub store_generated : KeyManager → KeyEnv → Files Bytes → Bytes × Bytes → KeyResult
unfolding save_pair
store_generated km env files keys =
    let km' = with_keys km keys.1 keys.0 in
    let saved = save_pair env km.keys_dir keys.1 keys.0 files in
    if not env.dir_made
    then record { result = err no_keys_dir; manager = km'; files = files }
    else record { result = saved.0; manager = km'; files = saved.1 }

unfoldable pub generate_and_save_keypair : KeyManager → KeyEnv → Files Bytes → KeyResult
unfolding store_generated
generate_and_save_keypair km env files = elim env.generated [
  | none ↦ record { result = err not_generated; manager = km; files = files }
  | some keys ↦ store_generated km env files keys
]

-- `os.Remove`, whose error is ignored.
abbrev pub remove_file : Bool → Bytes → Files Bytes → Files Bytes
remove_file removable path files = if removable then delete bytes_discrete path files else files

-- `EnsureKeysExist`.
unfoldable pub ensure_keys_exist : KeyManager → KeyEnv → Files Bytes → KeyResult
unfolding load_keys generate_and_save_keypair
ensure_keys_exist km env files =
    let private_name = private_path env km.keys_dir in
    let public_name = public_path env km.keys_dir in
    let has_private = has_file private_name files in
    let has_public = has_file public_name files in
    let (result, km') = load_keys km env files in
    let cleaned =
      remove_file env.public_removable public_name
        (remove_file env.private_removable private_name files) in
    if has_private && has_public
    then record { result = result; manager = km'; files = files }
    else if has_private || has_public
    then generate_and_save_keypair km env cleaned
    else generate_and_save_keypair km env files

-- `PublicKeyCrypto`: `none` stands for the error "keys not loaded".
pub data CryptoKeyError : Type 0 where
  not_loaded : CryptoKeyError
  bad_key : KeyError → CryptoKeyError

unfoldable pub public_key_crypto : KeyManager → Result CryptoKeyError PublicKey
public_key_crypto km = elim km.public_key [
  | none ↦ err not_loaded
  | some k ↦ elim (new_public_key (some k)) [ ok pk ↦ ok pk | err e ↦ err (bad_key e) ]
]

-- `KeyManager.Fingerprint`: empty without a key that is valid.
unfoldable pub key_fingerprint : Primitives → KeyManager → Bytes
key_fingerprint prims km = elim km.public_key [
  | none ↦ []
  | some k ↦ elim (new_public_key (some k)) [ ok pk ↦ fingerprint prims pk | err e ↦ [] ]
]
