-- ===== src/Daemon/AddHandler/Accepting.antt =====
-- Which requests `handlePackageAdd` lets through.
use libreseed.Prelude.{
  ℕ, ◌≡◌, ◌≢◌, ◌⊎◌, refl, sym, Option, none, some, arith, Option-cases, inl, inr, Result, ok, err,
  subst,
}
use libreseed.Text.{Bytes}
use libreseed.Crypto.Signer.{DualError, verify_dual_signature}
use libreseed.Crypto.Verifying.{Accepted, some-eq, verify_dual_signature_iff}
use libreseed.Package.Manifest.{Package, PackageError, validate_package}
use libreseed.Package.WellFormed.{IsPackage, validate_package_iff}
use libreseed.Daemon.AddHandler.{
  Daemon, AddRequest, AddEnv, load_package_from_bytes, serialize_manifest, dual_status, accept,
  or_status, handle_package_add,
}

module _ {D : Type 0} (env : AddEnv D) where
  or_status-eq-ok :
      {A : Type 0} (o : Option A) (status : ℕ) (a : A) → or_status o status ≡ ok a → o ≡ some a
  or_status-eq-ok none status a h = absurd (cc)
  or_status-eq-ok (some b) status a h = cc

  load-IsPackage :
      (content : D) (pkg : Package)
      → load_package_from_bytes env content ≡ some pkg
      → (env.unmarshal_package content ≡ some pkg) × IsPackage pkg
  unfolding load_package_from_bytes
  load-IsPackage content pkg h = elim (Option-cases (env.unmarshal_package content)) [
    | inl e ↦ absurd (ground arith)
    | inr (p, e) ↦ checked p e (validate_package p) refl (rw (e, load_package_from_bytes) at h)
  ]
    where
      checked :
          (p : Package)
          → env.unmarshal_package content ≡ some p
          → (r : Result PackageError (Unit {0})) → validate_package p ≡ r
          → (elim r as (λ _. Option Package) [ ok _ ↦ some p | err _ ↦ none ]) ≡ some pkg
          → (env.unmarshal_package content ≡ some pkg) × IsPackage pkg
      checked p e (ok u) v q =
          let same : p ≡ pkg = ground arith in
          subst (λ (x : Package). (env.unmarshal_package content ≡ some x) × IsPackage x) same
            (e, (validate_package_iff p).0 v)
      checked p e (err f) v q = absurd (cc)

  -- What an accepted package is: well-formed, with two signatures over the same bytes of its
  -- manifest that are accepted under the manifest's own keys.
  pub record Authentic (pkg : Package) : Type 0 where
    pub well_formed : IsPackage pkg
    pub message : Bytes
    pub marshalled : serialize_manifest env pkg.manifest ≡ some message
    pub creator : Accepted env.prims pkg.manifest.creator_pub_key message pkg.manifest_signature
    pub maintainer :
        Accepted env.prims pkg.manifest.maintainer_pub_key message pkg.maintainer_manifest_signature

  dual : Package → Bytes → Result DualError (Unit {0})
  dual pkg message =
      verify_dual_signature env.prims message pkg.manifest.creator_pub_key
        (some pkg.manifest_signature) pkg.manifest.maintainer_pub_key
        (some pkg.maintainer_manifest_signature)

  -- Each step that a request passes.
  accept_steps :
      (req : AddRequest D) (pkg : Package)
      → accept env req ≡ ok pkg
      → (load_package_from_bytes env req.content ≡ some pkg)
        × ((message : Bytes) × (serialize_manifest env pkg.manifest ≡ some message)
            × (dual pkg message ≡ ok tt))
  unfolding accept dual
  accept_steps req pkg h = elim (Option-cases (load_package_from_bytes env req.content)) [
    | inl e ↦ absurd (ground arith)
    | inr (p, e) ↦ elim (Option-cases (serialize_manifest env p.manifest)) [
      | inl q ↦ absurd (ground arith)
      | inr (m, q) ↦
          let same : p ≡ pkg = ground arith in
          let signed : dual p m ≡ ok tt = ground arith in
          subst
            (λ (x : Package).
              (load_package_from_bytes env req.content ≡ some x)
              × ((n : Bytes) × (serialize_manifest env x.manifest ≡ some n) × (dual x n ≡ ok tt)))
            same (e, (m, q, signed))
    ]
  ]

  -- A package that the handler lets through is the one that the request's content parses to, it is
  -- well-formed, and both signatures over its manifest are accepted.
  pub accept-Authentic :
      (req : AddRequest D) (pkg : Package)
      → accept env req ≡ ok pkg
      → (env.unmarshal_package req.content ≡ some pkg) × Authentic pkg
  unfolding dual
  accept-Authentic req pkg h =
      let (e, (m, q, signed)) = accept_steps req pkg h in
      let (parsed, formed) = load-IsPackage req.content pkg e in
      let ((c, c_is, c_ok), (t, t_is, t_ok)) =
        (verify_dual_signature_iff env.prims m pkg.manifest.creator_pub_key
            pkg.manifest.maintainer_pub_key (some pkg.manifest_signature)
            (some pkg.maintainer_manifest_signature)).0
          signed in
      (
        parsed,
        record {
          well_formed = formed;
          message = m;
          marshalled = q;
          creator =
              subst (Accepted env.prims pkg.manifest.creator_pub_key m) (some-eq (sym c_is)) c_ok;
          maintainer =
              subst (Accepted env.prims pkg.manifest.maintainer_pub_key m) (some-eq (sym t_is))
                t_ok;
        },
      )

  dual_status_ne : (e : DualError) → dual_status e ≢ 201
  unfolding dual_status
  dual_status_ne e = ground arith

  pub refusal : (req : AddRequest D) (status : ℕ) → accept env req ≡ err status → status ≢ 201
  unfolding accept dual
  refusal req status h = elim (Option-cases (load_package_from_bytes env req.content)) [
    | inl e ↦ ground arith
    | inr (p, e) ↦ elim (Option-cases (serialize_manifest env p.manifest)) [
      | inl q ↦ ground arith
      | inr (m, q) ↦ signed p e m q (dual p m) refl
    ]
  ]
    where
      signed :
          (p : Package)
          → load_package_from_bytes env req.content ≡ some p
          → (m : Bytes) → serialize_manifest env p.manifest ≡ some m
          → (r : Result DualError (Unit {0})) → dual p m ≡ r
          → status ≢ 201
      signed p e m q (ok u) v = ground arith
      signed p e m q (err f) v = ground (arith, dual_status_ne f)

  -- A request either leaves the daemon as it is, with a status other than 201, or its content
  -- parses to a package that is well-formed and whose two signatures are accepted for the
  -- serialised manifest, each under the manifest's key for it.
  pub handle_package_add-Authentic :
      (req : AddRequest D) (d : Daemon D)
      → (((handle_package_add env req d).1 ≡ d) × ((handle_package_add env req d).0 ≢ 201))
        ⊎ ((pkg : Package) × (env.unmarshal_package req.content ≡ some pkg) × Authentic pkg)
  unfolding handle_package_add
  handle_package_add-Authentic req d = by_outcome (accept env req) refl
    where
      by_outcome :
          (r : Result ℕ Package)
          → accept env req ≡ r
          → (((handle_package_add env req d).1 ≡ d) × ((handle_package_add env req d).0 ≢ 201))
            ⊎ ((pkg : Package) × (env.unmarshal_package req.content ≡ some pkg) × Authentic pkg)
      by_outcome (ok pkg) e =
          let (parsed, authentic) = accept-Authentic req pkg e in inr (pkg, parsed, authentic)
      by_outcome (err status) e =
          inl (rw (e, handle_package_add) refl, rw (e, handle_package_add) (refusal req status e))
