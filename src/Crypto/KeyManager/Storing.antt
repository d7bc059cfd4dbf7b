-- ===== src/Crypto/KeyManager/Storing.antt =====
-- The key pair on the disk: what `GenerateAndSaveKeypair` writes, `LoadKeys` reads back.
use libreseed.Prelude.{
  ◌≡◌, ◌≢◌, refl, subst, sym, ◌∙◌, true, ◌&&◌, ◌||◌, some, arith, All, Bool-cases, Option-cases,
  Result-cases, inl, inr, ok,
}
use libreseed.Text.{Bytes, IsByte, bytes_discrete}
use libreseed.Text.Hex.{encode}
use libreseed.GoMap.{lookup}
use libreseed.GoMap.Laws.{lookup-insert_ne, lookup-insert_self}
use libreseed.Storage.{File, Files}
use libreseed.Storage.OsFiles.{put_file, os_write_file, os_write_file-ok}
use libreseed.Crypto.KeyManager.{
  KeyManager, KeyEnv, KeyResult, private_path, public_path, read_pair, check_pair, with_keys,
  load_keys, save_pair, store_generated, generate_and_save_keypair, ensure_keys_exist, has_file,
}
use libreseed.Crypto.KeyManager.Pairs.{IsPair, check_pair-encode}

-- Two files that are there and pass the checks, with the keys that they hold.
pub record Holds (env : KeyEnv) (dir : Bytes) (files : Files Bytes) (p q : Bytes) : Type 0 where
  pub private_file : File Bytes
  pub public_file : File Bytes
  pub private_there : lookup bytes_discrete (private_path env dir) files ≡ some private_file
  pub public_there : lookup bytes_discrete (public_path env dir) files ≡ some public_file
  pub checked : check_pair private_file.content public_file.content ≡ ok (p, q)

-- What the key generator returns is a pair of byte strings.
abbrev pub IsKeySource : KeyEnv → Type 0
IsKeySource env =
    (p q : Bytes) → env.generated ≡ some (q, p) → IsPair p q × All IsByte p × All IsByte q

pub read_pair-Holds :
    (env : KeyEnv) (dir : Bytes) (files : Files Bytes) (keys : Bytes × Bytes)
    → read_pair env dir files ≡ ok keys
    → Holds env dir files keys.0 keys.1
unfolding read_pair
read_pair-Holds env dir files keys h =
    elim (Option-cases (lookup bytes_discrete (private_path env dir) files)) [
      | inl q ↦ absurd (ground arith)
      | inr (f, q) ↦ elim (Option-cases (lookup bytes_discrete (public_path env dir) files)) [
        | inl r ↦ absurd (ground arith)
        | inr (g, r) ↦ record {
          private_file = f;
          public_file = g;
          private_there = q;
          public_there = r;
          checked = ground arith;
        }
      ]
    ]

-- A reader of the same directory, with a manager of its own.
pub Holds-read_pair :
    (env env' : KeyEnv) (dir : Bytes) (files : Files Bytes) (p q : Bytes)
    → env'.join ≡ env.join
    → env'.private_readable ≡ true
    → env'.public_readable ≡ true
    → Holds env dir files p q
    → read_pair env' dir files ≡ ok (p, q)
unfolding read_pair
Holds-read_pair env env' dir files p q j rp rq h =
    rw (j, rp, rq, h.private_there, h.public_there) h.checked

-- The disk after both writes.
abbrev with_pair : KeyEnv → Bytes → Bytes → Bytes → Files Bytes → Files Bytes
with_pair env dir p q files =
    put_file (public_path env dir) (encode q) 0o644
      (put_file (private_path env dir) (encode p) 0o600 files)

save_pair-ok :
    (env : KeyEnv) (dir p q : Bytes) (files : Files Bytes)
    → (save_pair env dir p q files).0 ≡ ok tt
    → (save_pair env dir p q files).1 ≡ with_pair env dir p q files
unfolding save_pair
save_pair-ok env dir p q files h =
    let first = os_write_file env.private_write (private_path env dir) (encode p) 0o600 files in
    let one = os_write_file-ok env.private_write (private_path env dir) (encode p) 0o600 files in
    let two = os_write_file-ok env.public_write (public_path env dir) (encode q) 0o644 first.1 in
    ground (arith, one, two)

with_pair-Holds :
    (env : KeyEnv) (dir p q : Bytes) (files : Files Bytes)
    → private_path env dir ≢ public_path env dir
    → IsPair p q
    → All IsByte p
    → All IsByte q
    → Holds env dir (with_pair env dir p q files) p q
with_pair-Holds env dir p q files apart v bp bq =
    let before = put_file (private_path env dir) (encode p) 0o600 files in
    record {
      private_file = _;
      public_file = _;
      private_there =
          lookup-insert_ne bytes_discrete (public_path env dir) (private_path env dir) _ before
            apart
          ∙ lookup-insert_self bytes_discrete (private_path env dir) _ files;
      public_there = lookup-insert_self bytes_discrete (public_path env dir) _ before;
      checked = check_pair-encode p q bp bq v;
    }

-- What a call leaves in the manager and on the disk.
abbrev pub Keeps : KeyEnv → KeyManager → KeyResult → Type 0
Keeps env km r =
    (p : Bytes) × (q : Bytes) × Holds env km.keys_dir r.files p q × (r.manager ≡ with_keys km p q)

store_generated-Keeps :
    (km : KeyManager) (env : KeyEnv) (files : Files Bytes) (p q : Bytes)
    → private_path env km.keys_dir ≢ public_path env km.keys_dir
    → IsPair p q
    → All IsByte p
    → All IsByte q
    → (store_generated km env files (q, p)).result ≡ ok tt
    → Keeps env km (store_generated km env files (q, p))
unfolding store_generated
store_generated-Keeps km env files p q apart v bp bq h = elim (Bool-cases env.dir_made) [
  | inr d ↦ absurd (ground arith)
  | inl d ↦
      let saved = save_pair-ok env km.keys_dir p q files (ground arith) in
      let after : (store_generated km env files (q, p)).files
          ≡ with_pair env km.keys_dir p q files =
        ground (arith, saved) in
      (
        p,
        q,
        subst (λ disk. Holds env km.keys_dir disk p q) (sym after)
            (with_pair-Holds env km.keys_dir p q files apart v bp bq),
        ground arith,
      )
]

generate-Keeps :
    (km : KeyManager) (env : KeyEnv) (files : Files Bytes)
    → private_path env km.keys_dir ≢ public_path env km.keys_dir
    → IsKeySource env
    → (generate_and_save_keypair km env files).result ≡ ok tt
    → Keeps env km (generate_and_save_keypair km env files)
unfolding generate_and_save_keypair
generate-Keeps km env files apart source h = elim (Option-cases env.generated) [
  | inl e ↦ absurd (ground arith)
  | inr ((q, p), e) ↦
      let (v, bp, bq) = source p q e in
      let same : generate_and_save_keypair km env files ≡ store_generated km env files (q, p) =
        ground arith in
      subst (Keeps env km) (sym same)
        (store_generated-Keeps km env files p q apart v bp bq (ground arith))
]

load_keys-Keeps :
    (km : KeyManager) (env : KeyEnv) (files : Files Bytes)
    → (load_keys km env files).0 ≡ ok tt
    → Keeps env km (record { result = ok tt; manager = (load_keys km env files).1; files = files })
unfolding load_keys
load_keys-Keeps km env files h = elim (Result-cases (read_pair env km.keys_dir files)) [
  | inl (e, r) ↦ absurd (ground arith)
  | inr (keys, r) ↦
      (keys.0, keys.1, read_pair-Holds env km.keys_dir files keys r, rw (r, load_keys) refl)
]

pub ensure-Keeps :
    (km : KeyManager) (env : KeyEnv) (files : Files Bytes)
    → private_path env km.keys_dir ≢ public_path env km.keys_dir
    → IsKeySource env
    → (ensure_keys_exist km env files).result ≡ ok tt
    → Keeps env km (ensure_keys_exist km env files)
unfolding ensure_keys_exist
ensure-Keeps km env files apart source h =
    let a = has_file (private_path env km.keys_dir) files in
    let b = has_file (public_path env km.keys_dir) files in
    elim (Bool-cases (a && b)) [
      | inl c ↦ rw c (load_keys-Keeps km env files (ground arith))
      | inr c ↦ elim (Bool-cases (a || b)) [
        | inl o ↦ rw (c, o) (generate-Keeps km env _ apart source (ground arith))
        | inr o ↦ rw (c, o) (generate-Keeps km env files apart source (ground arith))
      ]
    ]
