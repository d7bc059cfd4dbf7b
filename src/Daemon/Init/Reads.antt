-- ===== src/Daemon/Init/Reads.antt =====
-- What a daemon that `New` returns was made of.
use libreseed.Prelude.{
  ◌≡◌, ◌≢◌, ◌∙◌, refl, sym, ap, subst, Option, some, [], ◌∷◌, arith, Result-cases, inl, inr, ok,
}
use libreseed.Text.{Bytes, bytes_discrete}
use libreseed.GoMap.{lookup, Distinct, Keyed}
use libreseed.Storage.{Files}
use libreseed.Crypto.KeyManager.{
  KeyManager, private_path, public_path, with_keys, ensure_keys_exist,
}
use libreseed.Crypto.KeyManager.Others.{lookup-ensure_keys_exist}
use libreseed.Daemon.Config.{
  DaemonConfig, IsConfig, validate_daemon_config, validate_daemon_config_iff,
}
use libreseed.Crypto.KeyManager.Pairs.{IsPair, check_pair-IsPair}
use libreseed.Crypto.KeyManager.Storing.{Holds, IsKeySource, ensure-Keeps}
use libreseed.Daemon.Packages.{PackageManager, load_state}
use libreseed.Daemon.Packages.Loading.{load_state-files, load_state-Distinct}
use libreseed.Daemon.Init.{
  InitEnv, Built, key_env, keys_dir, empty_manager, prepare, build, after_keys, new_with,
  new_key_manager, or_default_config, new, without_keys,
}

-- The success of `New`, taken apart.
record Steps (env : InitEnv) (config : DaemonConfig) (files : Files Bytes) (b : Built)
    (after : Files Bytes) : Type 0 where
  km : KeyManager
  pm : PackageManager
  prepared : prepare env config ≡ ok km
  keyed : (ensure_keys_exist km (key_env env) files).result ≡ ok tt
  disk : (ensure_keys_exist km (key_env env) files).files ≡ after
  loaded : load_state env.yaml env.meta_readable (empty_manager env config) after ≡ ok pm
  built : b ≡ build env config (ensure_keys_exist km (key_env env) files).manager pm

Steps-of_new :
    (env : InitEnv) (config : DaemonConfig) (files : Files Bytes) (b : Built) (after : Files Bytes)
    → new_with env config files ≡ (ok b, after)
    → Steps env config files b after
unfolding new_with after_keys
Steps-of_new env config files b after h = elim (Result-cases (prepare env config)) [
  | inl (e, p) ↦ absurd (ground arith)
  | inr (km, p) ↦
      let keys = ensure_keys_exist km (key_env env) files in
      elim (Result-cases keys.result) [
        | inl (e, k) ↦ absurd (ground arith)
        | inr (u, k) ↦
            elim (Result-cases
              (load_state env.yaml env.meta_readable (empty_manager env config) keys.files)) [
                | inl (e, l) ↦ absurd (ground arith)
                | inr (pm, l) ↦ record {
                  km = km;
                  pm = pm;
                  prepared = p;
                  keyed = k;
                  disk = ground arith;
                  loaded = ground arith;
                  built = ground arith;
                }
              ]
      ]
]

-- The key directory that `New` uses, if `filepath.Join` returns no empty name.
abbrev pub keys_path : InitEnv → DaemonConfig → Bytes
keys_path env config = env.clean (keys_dir env config)

new_key_manager-ok :
    (env : InitEnv) (dir : Bytes)
    → dir ≢ []
    → new_key_manager env dir ≡ some (without_keys (env.clean dir))
unfolding new_key_manager
new_key_manager-ok env [] h = absurd (h refl)
new_key_manager-ok env (c ∷ dir) h = refl

prepare-ok :
    (env : InitEnv) (config : DaemonConfig) (km : KeyManager)
    → keys_dir env config ≢ []
    → prepare env config ≡ ok km
    → (validate_daemon_config config ≡ ok tt) × (km ≡ without_keys (keys_path env config))
unfolding prepare
prepare-ok env config km h e = elim (Result-cases (validate_daemon_config config)) [
  | inl (x, q) ↦ absurd (ground arith)
  | inr (u, q) ↦ (q, ground (arith, new_key_manager-ok env (keys_dir env config) h))
]

-- What a success of `New` promises: the configuration is valid; the database is what `LoadState`
-- reads from the disk as it was, with one entry for each id, under its own id; the keys are a
-- pair that is on the disk; no file but the two of the keys is changed.
pub record IsBuilt (env : InitEnv) (config : DaemonConfig) (files : Files Bytes) (b : Built)
    (after : Files Bytes) : Type 0 where
  pub kept : b.config ≡ config
  pub valid : IsConfig config
  pub loaded :
      load_state env.yaml env.meta_readable (empty_manager env config) files ≡ ok b.daemon.manager
  pub distinct : Distinct bytes_discrete b.daemon.manager.packages
  pub keyed : Keyed (λ i. i.package_id) b.daemon.manager.packages
  pub private_key : Bytes
  pub public_key : Bytes
  pub pair : IsPair private_key public_key
  pub keys : b.key_manager ≡ with_keys (without_keys (keys_path env config)) private_key public_key
  pub on_disk : Holds (key_env env) (keys_path env config) after private_key public_key
  pub others :
      (name : Bytes)
      → name ≢ private_path (key_env env) (keys_path env config)
      → name ≢ public_path (key_env env) (keys_path env config)
      → lookup bytes_discrete name after ≡ lookup bytes_discrete name files

-- The files that a configuration uses have different names, and the generator returns pairs.
pub record IsSound (env : InitEnv) (config : DaemonConfig) : Type 0 where
  pub named : keys_dir env config ≢ []
  pub apart :
      private_path (key_env env) (keys_path env config)
      ≢ public_path (key_env env) (keys_path env config)
  pub not_private :
      (empty_manager env config).meta_file ≢ private_path (key_env env) (keys_path env config)
  pub not_public :
      (empty_manager env config).meta_file ≢ public_path (key_env env) (keys_path env config)
  pub source : IsKeySource (key_env env)

IsBuilt-of_Steps :
    (env : InitEnv) (config : DaemonConfig) (files : Files Bytes) (b : Built) (after : Files Bytes)
    → IsSound env config
    → Steps env config files b after
    → IsBuilt env config files b after
IsBuilt-of_Steps env config files b after s t =
    let (checked, found) = prepare-ok env config t.km s.named t.prepared in
    let fresh = without_keys (keys_path env config) in
    let keys = ensure_keys_exist fresh (key_env env) files in
    let disk : keys.files ≡ after = rw found at t.disk in
    let made : keys.result ≡ ok tt = rw found at t.keyed in
    let whole : b ≡ build env config keys.manager t.pm = rw found at t.built in
    let (p, q, holds, same) = ensure-Keeps fresh (key_env env) files s.apart s.source made in
    let kept = lookup-ensure_keys_exist fresh (key_env env) in
    let read = load_state-files env.yaml env.meta_readable (empty_manager env config) in
    let found_meta : lookup bytes_discrete (empty_manager env config).meta_file after
        ≡ lookup bytes_discrete (empty_manager env config).meta_file files =
      subst
        (λ x.
          lookup bytes_discrete (empty_manager env config).meta_file x
          ≡ lookup bytes_discrete (empty_manager env config).meta_file files)
        disk (kept (empty_manager env config).meta_file s.not_private s.not_public files) in
    let unique =
      load_state-Distinct env.yaml env.meta_readable (empty_manager env config) t.pm after
        t.loaded in
    let manager : b.daemon.manager ≡ t.pm = ap (λ (x : Built). x.daemon.manager) whole in
    record {
      kept = ap (λ (x : Built). x.config) whole;
      valid = (validate_daemon_config_iff config).0 checked;
      loaded = read files after (sym found_meta) ∙ t.loaded ∙ ap ok (sym manager);
      distinct = rw manager unique.0;
      keyed = rw manager unique.1;
      private_key = p;
      public_key = q;
      pair =
          check_pair-IsPair holds.private_file.content holds.public_file.content (p, q)
            holds.checked;
      keys = ap (λ (x : Built). x.key_manager) whole ∙ same;
      on_disk = subst (λ files. Holds (key_env env) (keys_path env config) files p q) disk holds;
      others = λ name a b.
          subst (λ x. lookup bytes_discrete name x ≡ lookup bytes_discrete name files) disk
            (kept name a b files);
    }

-- A `New` that returns a daemon has read it from the disk and its keys are there, if the files
-- have different names and the generator of keys returns pairs.
pub new-IsBuilt :
    (env : InitEnv) (config : Option DaemonConfig) (files : Files Bytes) (b : Built)
    (after : Files Bytes)
    → IsSound env (or_default_config env config)
    → new env config files ≡ (ok b, after)
    → IsBuilt env (or_default_config env config) files b after
unfolding new
new-IsBuilt env config files b after s e =
    let c = or_default_config env config in
    IsBuilt-of_Steps env c files b after s (Steps-of_new env c files b after e)
