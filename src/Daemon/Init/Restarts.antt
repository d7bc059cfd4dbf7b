-- ===== src/Daemon/Init/Restarts.antt =====
-- A daemon over two runs of the program: what one has saved, the next lists, and gives to
-- the announcer.
use libreseed.Prelude.{◌≡◌, ◌≢◌, ◌∙◌, refl, sym, subst, true, Option, some, [], ok, Result}
use libreseed.Text.{Bytes}
use libreseed.Storage.{Files, Env}
use libreseed.Daemon.AddHandler.{info_hash_of}
use libreseed.Daemon.Config.{DaemonConfig}
use libreseed.Daemon.Packages.{
  PackageManager, Yaml, IsRoundTrip, LoadError, with_packages, save_state, load_state,
  package_exists,
}
use libreseed.Daemon.Packages.Invariant.{IsValid}
use libreseed.Daemon.Packages.Persist.{load_state-save_state}
use libreseed.Daemon.Lifecycle.{StartEnv, start}
use libreseed.Daemon.Lifecycle.Populate.{is_tracked}
use libreseed.Daemon.Lifecycle.Hashes.{is_tracked-info_hash_of}
use libreseed.Daemon.Init.{InitEnv, Built, empty_manager, or_default_config, new}
use libreseed.Daemon.Init.Reads.{IsSound, new-IsBuilt}

load_state-with_packages :
    (yaml : Yaml Bytes) (pm : PackageManager) (files : Files Bytes)
    → load_state yaml true (with_packages pm []) files ≡ load_state yaml true pm files
unfolding load_state
load_state-with_packages yaml pm files = refl

ok-injective :
    (a b : PackageManager) → ◌≡◌ {A = Result LoadError PackageManager} (ok a) (ok b) → a ≡ b
ok-injective a b e = cc

module _ (env : InitEnv) (config : Option DaemonConfig) (save_env : Env Bytes) (pm : PackageManager)
    (before saved after : Files Bytes) (b : Built) where
  -- The database that was saved under the names of a configuration is the one that the next `New`
  -- of this configuration reads, whether it finds its keys or makes new ones.
  manager-new :
      IsSound env (or_default_config env config)
      → IsRoundTrip env.yaml
      → env.meta_readable ≡ true
      → with_packages pm [] ≡ empty_manager env (or_default_config env config)
      → pm.meta_file ≢ save_env.tmp
      → IsValid pm.packages
      → save_state env.yaml save_env pm before ≡ (ok tt, saved)
      → new env config saved ≡ (ok b, after)
      → b.daemon.manager ≡ pm
  manager-new sound trip readable place apart valid save made =
      let built = new-IsBuilt env config saved b after sound made in
      let read =
        load_state-save_state env.yaml save_env pm before saved trip apart valid.distinct
          valid.keyed save in
      let found : load_state env.yaml true (with_packages pm []) saved ≡ ok b.daemon.manager =
        rw place (rw readable at built.loaded) in
      sym (
        ok-injective pm b.daemon.manager
          (sym read ∙ sym (load_state-with_packages env.yaml pm saved) ∙ found))

  -- A valid database that was saved under the names of a configuration is the database of the
  -- daemon that `New` of this configuration makes next, and once `Start` of this daemon has
  -- returned no error with the DHT enabled, each of its packages is in the announcer's map, under
  -- the hash that the handlers make of its id.
  pub is_tracked-new :
      (start_env : StartEnv) (id : Bytes)
      → IsSound env (or_default_config env config)
      → IsRoundTrip env.yaml
      → env.meta_readable ≡ true
      → with_packages pm [] ≡ empty_manager env (or_default_config env config)
      → pm.meta_file ≢ save_env.tmp
      → IsValid pm.packages
      → save_state env.yaml save_env pm before ≡ (ok tt, saved)
      → new env config saved ≡ (ok b, after)
      → b.daemon.enable_dht ≡ true
      → (start b.daemon start_env).0 ≡ ok tt
      → package_exists pm id ≡ true
      → (b.daemon.manager ≡ pm)
        × (h : Bytes) × (info_hash_of id ≡ some h)
        × (is_tracked h (start b.daemon start_env).1.announcer ≡ true)
  is_tracked-new start_env id sound trip readable place apart valid save made dht started listed =
      let same = manager-new sound trip readable place apart valid save made in
      let (h, at_add, announced) =
        is_tracked-info_hash_of b.daemon start_env id
          (subst (λ (m : PackageManager). IsValid m.packages) (sym same) valid)
          (subst (λ m. package_exists m id ≡ true) (sym same) listed) dht started in
      (same, h, at_add, announced)
