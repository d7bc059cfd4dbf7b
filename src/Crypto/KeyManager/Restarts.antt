-- ===== src/Crypto/KeyManager/Restarts.antt =====
-- The key pair over two starts of the daemon.
use libreseed.Prelude.{◌≡◌, ◌≢◌, refl, true, ok}
use libreseed.Text.{Bytes}
use libreseed.Storage.{Files}
use libreseed.Crypto.KeyManager.{
  KeyManager, KeyEnv, KeyResult, private_path, public_path, with_keys, load_keys, ensure_keys_exist,
  has_file,
}
use libreseed.Crypto.KeyManager.Pairs.{IsPair, check_pair-IsPair}
use libreseed.Crypto.KeyManager.Storing.{Holds, IsKeySource, Holds-read_pair, ensure-Keeps}

-- A manager that finds a pair on the disk loads it, whatever it would generate.
ensure-of_Holds :
    (km : KeyManager) (env env' : KeyEnv) (files : Files Bytes) (p q : Bytes)
    → env'.join ≡ env.join
    → env'.private_readable ≡ true
    → env'.public_readable ≡ true
    → Holds env km.keys_dir files p q
    → ensure_keys_exist km env' files
      ≡ (record { result = ok tt; manager = with_keys km p q; files = files })
unfolding ensure_keys_exist
ensure-of_Holds km env env' files p q j rp rq h =
    let read = Holds-read_pair env env' km.keys_dir files p q j rp rq h in
    let loaded : load_keys km env' files ≡ (ok tt, with_keys km p q) = rw (read, load_keys) refl in
    let a : has_file (private_path env' km.keys_dir) files ≡ true = rw (j, h.private_there) refl in
    let b : has_file (public_path env' km.keys_dir) files ≡ true = rw (j, h.public_there) refl in
    rw (loaded, a, b) refl

-- What a success of `EnsureKeysExist` promises.
pub record IsEnsured (env : KeyEnv) (km : KeyManager) (r : KeyResult) : Type 0 where
  pub private_key : Bytes
  pub public_key : Bytes
  pub loaded : r.manager ≡ with_keys km private_key public_key
  pub pair : IsPair private_key public_key
  pub again :
      (km' : KeyManager) (env' : KeyEnv)
      → km'.keys_dir ≡ km.keys_dir
      → env'.join ≡ env.join
      → env'.private_readable ≡ true
      → env'.public_readable ≡ true
      → ensure_keys_exist km' env' r.files ≡ (record {
        result = ok tt;
        manager = with_keys km' private_key public_key;
        files = r.files;
      })

-- If the two key files have different names and the generator returns pairs, then after a success
-- of `EnsureKeysExist`, whether it loaded or generated the keys, the manager holds a private key
-- of 64 bytes and the public key of 32 bytes that is its second half. Every later call that can
-- read the files, also of another manager with the same directory, succeeds with the same keys,
-- whatever the generator would return, and changes no file.
pub ensure_keys_exist-IsEnsured :
    (km : KeyManager) (env : KeyEnv) (files : Files Bytes)
    → private_path env km.keys_dir ≢ public_path env km.keys_dir
    → IsKeySource env
    → (ensure_keys_exist km env files).result ≡ ok tt
    → IsEnsured env km (ensure_keys_exist km env files)
ensure_keys_exist-IsEnsured km env files apart source h =
    let (p, q, holds, same) = ensure-Keeps km env files apart source h in
    record {
      private_key = p;
      public_key = q;
      loaded = same;
      pair =
          check_pair-IsPair holds.private_file.content holds.public_file.content (p, q)
            holds.checked;
      again = λ km' env' d j rp rq.
          ensure-of_Holds km' env env' (ensure_keys_exist km env files).files p q j rp rq
            (rw d holds);
    }
