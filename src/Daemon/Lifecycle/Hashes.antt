-- ===== src/Daemon/Lifecycle/Hashes.antt =====
-- The hash of a package at a `Start` and the one in the handlers of pkg/daemon/handlers.go.
use libreseed.Prelude.{
  ℕ, zero, suc, ◌≡◌, refl, subst, Bool, true, Option, none, some, [], ◌∷◌, arith, length,
  length-take, take, Option-cases, inl, inr, ok,
}
use libreseed.Text.{Bytes, bytes_discrete, bytes_eq_iff}
use libreseed.Text.Hex.{decode, cons_pair, is_hex, length-decode}
use libreseed.GoMap.{GoMap, values, lookup}
use libreseed.GoMap.Laws.{lookup-All}
use libreseed.GoMap.Keys.{lookup-Keyed}
use libreseed.Daemon.PackageInfo.{PackageInfo, IsHexOf, IsWellFormed}
use libreseed.Daemon.Packages.{list_packages, package_exists}
use libreseed.Daemon.Packages.Invariant.{IsValid}
use libreseed.Daemon.AddHandler.{info_hash_of}
use libreseed.Daemon.Lifecycle.{Daemon, StartEnv, start, startup_hash}
use libreseed.Daemon.Lifecycle.Populate.{is_tracked, is_tracked-start, any, has_hash}

-- Two digits for each byte.
abbrev twice : ℕ → ℕ
twice zero = zero
twice (suc n) = suc (suc (twice n))

take-cons_pair :
    (n : ℕ) (h l : Option ℕ) (t t' : Option Bytes) (r : Bytes)
    → cons_pair h l t ≡ some r
    → ((u : Bytes) → t ≡ some u → t' ≡ some (take n u))
    → cons_pair h l t' ≡ some (take (suc n) r)
take-cons_pair n (some h) (some l) (some u) t' r e k = ground (arith, k u refl)
take-cons_pair n (some h) (some l) none t' r e k = absurd (cc)
take-cons_pair n (some h) none t t' r e k = absurd (cc)
take-cons_pair n none l t t' r e k = absurd (cc)

decode-take :
    (n : ℕ) (s r : Bytes) → decode s ≡ some r → decode (take (twice n) s) ≡ some (take n r)
unfolding decode
decode-take zero s r e = refl
decode-take (suc n) [] r e = ground arith
decode-take (suc n) (c ∷ []) r e = absurd (cc)
decode-take (suc n) (c ∷ d ∷ s) r e =
    take-cons_pair n _ _ (decode s) _ r e (λ u q. decode-take n s u q)

take-take : (n : ℕ) (s : Bytes) → take n (take n s) ≡ take n s
take-take zero s = refl
take-take (suc n) [] = refl
take-take (suc n) (b ∷ s) = rw (take-take n s) refl

-- The hash of an id of 64 digits is the first 20 bytes, for the handlers and for `Start`.
hash_of_id :
    (pkg : PackageInfo)
    → IsHexOf 64 pkg.package_id
    → (h : Bytes) × (info_hash_of pkg.package_id ≡ some h) × (startup_hash pkg ≡ some h)
unfolding info_hash_of startup_hash is_hex
hash_of_id pkg w = elim (Option-cases (decode pkg.package_id)) [
  | inl q ↦ absurd (cc (rw (q, is_hex) at w.1))
  | inr (r, q) ↦
      let size : length r ≡ 32 = omega (arith, length-decode pkg.package_id r q, w.0) in
      let cut : length (take 20 r) ≡ 20 = omega (arith, length-take 20 r) in
      (
        take 20 r,
        rw (info_hash_of, decode-take 20 pkg.package_id r q, cut, take-take 20 r) refl,
        rw (startup_hash, q, size) refl,
      )
]

any-lookup :
    (test : PackageInfo → Bool) (k : Bytes) (v : PackageInfo) (m : GoMap Bytes PackageInfo)
    → lookup bytes_discrete k m ≡ some v
    → test v ≡ true
    → any test (values m) ≡ true
unfolding lookup
any-lookup test k v [] e t = cc
any-lookup test k v ((j, w) ∷ m) e t = ground (arith, any-lookup test k v m)

is_tracked-hash :
    (d : Daemon) (env : StartEnv) (id h : Bytes) (pkg : PackageInfo)
    → lookup bytes_discrete id d.manager.packages ≡ some pkg
    → startup_hash pkg ≡ some h
    → d.enable_dht ≡ true
    → (start d env).0 ≡ ok tt
    → is_tracked h (start d env).1.announcer ≡ true
unfolding list_packages
is_tracked-hash d env id h pkg q k e o =
    let same : has_hash h pkg ≡ true = rw (has_hash, k) ((bytes_eq_iff h h).1 refl) in
    ground (
      arith,
      any-lookup (has_hash h) id pkg d.manager.packages q same,
      is_tracked-start d env h e o,
    )

-- Each package of a valid database has a hash, the one that the handlers make of its id, and after
-- a `Start` that returns no error with the DHT enabled this hash is in the announcer's map.
pub is_tracked-info_hash_of :
    (d : Daemon) (env : StartEnv) (id : Bytes)
    → IsValid d.manager.packages
    → package_exists d.manager id ≡ true
    → d.enable_dht ≡ true
    → (start d env).0 ≡ ok tt
    → (h : Bytes) × (info_hash_of id ≡ some h) × (is_tracked h (start d env).1.announcer ≡ true)
unfolding package_exists
is_tracked-info_hash_of d env id v x e o =
    elim (Option-cases (lookup bytes_discrete id d.manager.packages)) [
      | inl q ↦ absurd (ground arith)
      | inr (pkg, q) ↦
          let m = d.manager.packages in
          let own = lookup-Keyed bytes_discrete (λ i. i.package_id) id pkg m v.keyed q in
          let fine = lookup-All bytes_discrete IsWellFormed id pkg m v.well_formed q in
          let (h, at_add, at_start) = hash_of_id pkg fine.id in
          (
            h,
            subst (λ i. info_hash_of i ≡ some h) own at_add,
            is_tracked-hash d env id h pkg q at_start e o,
          )
    ]
