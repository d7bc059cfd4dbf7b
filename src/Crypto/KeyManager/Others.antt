-- ===== src/Crypto/KeyManager/Others.antt =====
-- The key manager writes no file but its own two.
use libreseed.Prelude.{ℕ, ◌≡◌, ◌≢◌, refl, Bool, arith, Option-cases, inl, inr}
use libreseed.Text.{Bytes, bytes_discrete}
use libreseed.Text.Hex.{encode}
use libreseed.GoMap.{lookup}
use libreseed.GoMap.Laws.{lookup-insert_ne, lookup-delete}
use libreseed.Storage.{Files}
use libreseed.Storage.OsFiles.{Write, os_write_file, writes, refuses, breaks_off}
use libreseed.Crypto.KeyManager.{
  KeyManager, KeyEnv, private_path, public_path, save_pair, store_generated,
  generate_and_save_keypair, remove_file, ensure_keys_exist,
}

lookup-os_write_file :
    (w : Write Bytes) (path other content : Bytes) (perm : ℕ) (files : Files Bytes)
    → other ≢ path
    → lookup bytes_discrete other (os_write_file w path content perm files).1
      ≡ lookup bytes_discrete other files
unfolding os_write_file
lookup-os_write_file writes path other content perm files h =
    lookup-insert_ne bytes_discrete path other _ files h
lookup-os_write_file refuses path other content perm files h = refl
lookup-os_write_file (breaks_off p) path other content perm files h =
    lookup-insert_ne bytes_discrete path other _ files h

lookup-remove_file :
    (removable : Bool) (path other : Bytes) (files : Files Bytes)
    → other ≢ path
    → lookup bytes_discrete other (remove_file removable path files)
      ≡ lookup bytes_discrete other files
lookup-remove_file removable path other files h =
    ground (arith, lookup-delete bytes_discrete path other files)

module _ (km : KeyManager) (env : KeyEnv) (other : Bytes)
    (not_private : other ≢ private_path env km.keys_dir)
    (not_public : other ≢ public_path env km.keys_dir) where
  lookup-save_pair :
      (p q : Bytes) (files : Files Bytes)
      → lookup bytes_discrete other (save_pair env km.keys_dir p q files).1
        ≡ lookup bytes_discrete other files
  unfolding save_pair
  lookup-save_pair p q files =
      let a = encode p in
      let b = encode q in
      let first = os_write_file env.private_write (private_path env km.keys_dir) a 0o600 files in
      ground (
        arith,
        lookup-os_write_file env.private_write (private_path env km.keys_dir) other a 0o600 files
            not_private,
        lookup-os_write_file env.public_write (public_path env km.keys_dir) other b 0o644 first.1
            not_public,
      )

  lookup-generate :
      (files : Files Bytes)
      → lookup bytes_discrete other (generate_and_save_keypair km env files).files
        ≡ lookup bytes_discrete other files
  unfolding generate_and_save_keypair store_generated
  lookup-generate files = elim (Option-cases env.generated) [
    | inl e ↦ ground arith
    | inr ((q, p), e) ↦ ground (arith, lookup-save_pair p q files)
  ]

  -- `EnsureKeysExist` leaves the files of other names as they are, whether it succeeds or not.
  pub lookup-ensure_keys_exist :
      (files : Files Bytes)
      → lookup bytes_discrete other (ensure_keys_exist km env files).files
        ≡ lookup bytes_discrete other files
  unfolding ensure_keys_exist
  lookup-ensure_keys_exist files =
      let one = remove_file env.private_removable (private_path env km.keys_dir) files in
      ground (
        arith,
        lookup-generate files,
        lookup-generate (remove_file env.public_removable (public_path env km.keys_dir) one),
        lookup-remove_file env.public_removable (public_path env km.keys_dir) other one,
        lookup-remove_file env.private_removable (private_path env km.keys_dir) other files,
      )
