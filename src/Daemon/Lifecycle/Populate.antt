-- ===== src/Daemon/Lifecycle/Populate.antt =====
-- What `Start` adds to the announcer.
use libreseed.Prelude.{
  ◌≡◌, refl, Bool, true, false, ◌||◌, none, some, List, [], ◌∷◌, arith, is_some, ◌∙◌, ap, err,
  Bool-cases, Option-cases, inl, inr, ok, Result, ap,
}
use libreseed.Text.{Bytes, bytes_discrete, bytes_eq, bytes_eq_iff}
use libreseed.GoMap.{lookup, insert}
use libreseed.GoMap.Laws.{lookup-insert}
use libreseed.Daemon.PackageInfo.{PackageInfo}
use libreseed.Daemon.Packages.{list_packages}
use libreseed.Daemon.Lifecycle.{
  Daemon, StartEnv, start, start_listening, with_client, launch, startup_hash, announce_existing,
  populate, is_running,
}
use libreseed.Daemon.State.{set_status, status_starting}
use libreseed.Dht.Client
use libreseed.Dht.Client.{Client, ClientError}
use libreseed.Dht.Announcer
use libreseed.Dht.Announcer.{Announcer}

-- Whether a package of the database has this hash.
abbrev pub has_hash : Bytes → PackageInfo → Bool
has_hash h pkg = elim (startup_hash pkg) [ none ↦ false | some k ↦ bytes_eq h k ]

abbrev pub any : (PackageInfo → Bool) → List PackageInfo → Bool
any test [] = false
any test (pkg ∷ pkgs) = test pkg || any test pkgs

-- Whether the hash is in the map: the rounds of the worker announce what is there.
abbrev pub is_tracked : Bytes → Announcer → Bool
is_tracked h a = is_some (lookup bytes_discrete h a)

is_tracked-insert :
    (h k : Bytes) (p : Announcer.PackageAnnouncement) (a : Announcer)
    → is_tracked h (insert bytes_discrete k p a) ≡ (bytes_eq h k || is_tracked h a)
is_tracked-insert h k p a = ground (arith, lookup-insert bytes_discrete k h p a, bytes_eq_iff h k)

is_tracked_self :
    (h k : Bytes) (a : Announcer)
    → is_tracked k a ≡ true
    → is_tracked h a ≡ (bytes_eq h k || is_tracked h a)
is_tracked_self h k a i = elim (Bool-cases (bytes_eq h k)) [
  | inl q ↦ rw (q, (bytes_eq_iff h k).0 q) i
  | inr q ↦ rw q refl
]

is_tracked-add_package :
    (h k name creator maintainer : Bytes) (a : Announcer)
    → is_tracked h (Announcer.add_package a k name creator maintainer)
      ≡ (bytes_eq h k || is_tracked h a)
unfolding Announcer.add_package
is_tracked-add_package h k name creator maintainer a = elim (Bool-cases (is_tracked k a)) [
  | inl i ↦ rw i (is_tracked_self h k a i)
  | inr i ↦ rw i (is_tracked-insert h k _ a)
]

is_tracked-announce_existing :
    (h : Bytes) (a : Announcer) (pkg : PackageInfo)
    → is_tracked h (announce_existing a pkg) ≡ (has_hash h pkg || is_tracked h a)
unfolding announce_existing
is_tracked-announce_existing h a pkg = elim (Option-cases (startup_hash pkg)) [
  | inl q ↦ rw (q, announce_existing, has_hash) refl
  | inr (k, q) ↦
      rw (q, announce_existing, has_hash)
        (is_tracked-add_package h k pkg.name pkg.creator_fingerprint pkg.maintainer_fingerprint a)
]

is_tracked-populate :
    (h : Bytes) (a : Announcer) (pkgs : List PackageInfo)
    → is_tracked h (populate a pkgs) ≡ (is_tracked h a || any (has_hash h) pkgs)
unfolding populate
is_tracked-populate h a [] = ground arith
is_tracked-populate h a (pkg ∷ pkgs) = ground (
  arith,
  is_tracked-populate h (announce_existing a pkg) pkgs,
  is_tracked-announce_existing h a pkg,
)

with_client-announcer :
    (d : Daemon) (env : StartEnv) (r : Result ClientError (Unit {0}) × Client)
    → (with_client d env r).0 ≡ ok tt
    → (with_client d env r).1.announcer ≡ populate d.announcer (list_packages d.manager)
unfolding with_client launch
with_client-announcer d env (ok u, c) h = refl
with_client-announcer d env (err e, c) h = absurd (cc h)

-- After a `Start` that returns no error with the DHT enabled, a hash is in the announcer's map
-- exactly if it was before, or if the first 20 bytes of the id of some package of the database, read as
-- hexadecimal digits, are this hash.
pub is_tracked-start :
    (d : Daemon) (env : StartEnv) (h : Bytes)
    → d.enable_dht ≡ true
    → (start d env).0 ≡ ok tt
    → is_tracked h (start d env).1.announcer
      ≡ (is_tracked h d.announcer || any (has_hash h) (list_packages d.manager))
unfolding start start_listening
is_tracked-start d env h e o = elim (Bool-cases (is_running d.state.status)) [
  | inl r ↦ absurd (ground arith)
  | inr r ↦ elim (Option-cases env.listen_error) [
    | inr l ↦ absurd (ground arith)
    | inl l ↦
        let d' : Daemon = record d { state = set_status status_starting d.state } in
        let answer = Client.start d.client env.connects env.serves in
        ap (is_tracked h) (ground (arith, with_client-announcer d' env answer))
        ∙ is_tracked-populate h d.announcer (list_packages d.manager)
  ]
]
