-- ===== src/Daemon/Config/Environment/Tiers.antt =====
-- The tiers of the configuration: the environment over the file over the defaults.
use libreseed.Prelude.{
  ℕ, ◌≡◌, refl, subst, ◌∙◌, Option, none, some, List, [], ◌∷◌, is_empty, arith, if◌then◌else◌, All,
  Result, ok, err, wrap_err, >>=-eq-ok, Bool-cases, Result-cases, inl, inr, drop,
}
use libreseed.Text.{Bytes, codes}
use libreseed.Text.Decimal.{parse_int}
use libreseed.Daemon.Config.{
  DaemonConfig, IsConfig, default_config, validate_daemon_config, validate_daemon_config_iff,
}
use libreseed.Daemon.Config.Environment.{
  EnvError, Setting, settings, set_parsed, apply_settings, load_from_env, ConfigEnv,
  ConfigLoadError, bad_environment, invalid_config, expand_home, file_tier, load_or_create_config,
  parse_bool,
}

-- A setter that leaves the address alone.
abbrev KeepsAddress : Setting → Type 0
KeepsAddress s = (c c' : DaemonConfig) → s.set s.value c ≡ ok c' → c'.listen_addr ≡ c.listen_addr

set_parsed-keeps {ℓ} :
    {A : Type ℓ} (o : Option A) (e : EnvError) (k : A → DaemonConfig) (c c' : DaemonConfig)
    → ((a : A) → (k a).listen_addr ≡ c.listen_addr)
    → set_parsed o e k ≡ ok c'
    → c'.listen_addr ≡ c.listen_addr
set_parsed-keeps none e k c c' h q = absurd (cc q)
set_parsed-keeps (some a) e k c c' h q = ground (arith, h a)

apply_settings-keeps :
    (l : List Setting) (c c' : DaemonConfig)
    → All KeepsAddress l
    → apply_settings l c ≡ ok c'
    → c'.listen_addr ≡ c.listen_addr
unfolding apply_settings
apply_settings-keeps [] c c' a h = ground arith
apply_settings-keeps (s ∷ rest) c c' a h = elim (Bool-cases (is_empty s.value)) [
  | inl e ↦ apply_settings-keeps rest c c' a.1 (rw e at h)
  | inr e ↦ elim (Result-cases (s.set s.value c)) [
    | inl (f, q) ↦ absurd (cc (rw (e, q) at h))
    | inr (c1, q) ↦ apply_settings-keeps rest c1 c' a.1 (rw (e, q) at h) ∙ a.0 c c1 q
  ]
]

later_settings-keep :
    (parse_duration : Bytes → Option ℕ) (getenv : Bytes → Bytes)
    → All KeepsAddress (drop 1 (settings parse_duration getenv))
unfolding settings
later_settings-keep parse_duration getenv = (
  λ c c' q. ground arith,
  (
    λ c c' q. set_parsed-keeps (parse_int _) _ _ c c' (λ n. refl) q,
    (
      λ c c' q. ground arith,
      (
        λ c c' q. set_parsed-keeps (parse_int _) _ _ c c' (λ n. refl) q,
        (
          λ c c' q. set_parsed-keeps (parse_int _) _ _ c c' (λ n. refl) q,
          (
            λ c c' q. set_parsed-keeps (parse_int _) _ _ c c' (λ n. refl) q,
            (
              λ c c' q. set_parsed-keeps (parse_bool _) _ _ c c' (λ b. refl) q,
              (
                λ c c' q. set_parsed-keeps (parse_bool _) _ _ c c' (λ b. refl) q,
                (
                  λ c c' q. set_parsed-keeps (parse_duration _) _ _ c c' (λ n. refl) q,
                  (λ c c' q. ground arith, tt),
                ),
              ),
            ),
          ),
        ),
      ),
    ),
  ),
)

-- The address that the environment gives, or else another.
abbrev pub address_or : (Bytes → Bytes) → Bytes → Bytes
address_or getenv addr =
    let v = getenv (codes "LIBRESEED_LISTEN_ADDR") in if is_empty v then addr else v

load_from_env-address :
    (parse_duration : Bytes → Option ℕ) (getenv : Bytes → Bytes) (c c' : DaemonConfig)
    → load_from_env parse_duration getenv c ≡ ok c'
    → c'.listen_addr ≡ address_or getenv c.listen_addr
unfolding load_from_env settings apply_settings
load_from_env-address parse_duration getenv c c' h =
    let rest = drop 1 (settings parse_duration getenv) in
    let keep = later_settings-keep parse_duration getenv in
    let v = getenv (codes "LIBRESEED_LISTEN_ADDR") in
    elim (Bool-cases (is_empty v)) [
      | inl e ↦ rw e (apply_settings-keeps rest c c' keep (rw e at h))
      | inr e ↦ rw e (apply_settings-keeps rest (record c { listen_addr = v }) c' keep (rw e at h))
    ]

-- What `loadOrCreateConfig` promises of its result.
pub record IsLoaded (env : ConfigEnv) (config_path : Bytes) (c : DaemonConfig) : Type 0 where
  pub valid : IsConfig c
  pub path : Bytes
  pub base : DaemonConfig
  pub expanded : expand_home env config_path ≡ ok path
  pub read : file_tier (default_config env.default_storage) (env.config_file path) ≡ ok base
  pub address : c.listen_addr ≡ address_or env.getenv base.listen_addr

wrap_err-ok : {E F A : Type 0} (f : E → F) (r : Result E A) (a : A) → wrap_err f r ≡ ok a → r ≡ ok a
wrap_err-ok f (ok b) a h = ground arith
wrap_err-ok f (err e) a h = absurd (cc h)

checked-IsConfig :
    (env : ConfigEnv) (base d c : DaemonConfig) {u : Unit {0}}
    → wrap_err bad_environment (load_from_env env.parse_duration env.getenv base) ≡ ok d
    → wrap_err invalid_config (validate_daemon_config d) ≡ ok u
    → ◌≡◌ {A = Result ConfigLoadError DaemonConfig} (ok d) (ok c)
    → IsConfig c × (c.listen_addr ≡ address_or env.getenv base.listen_addr)
checked-IsConfig env base d c w v e =
    let same : d ≡ c = ground arith in
    let valid =
      (validate_daemon_config_iff d).0
        (wrap_err-ok invalid_config (validate_daemon_config d) tt v) in
    let address =
      load_from_env-address env.parse_duration env.getenv base d
        (wrap_err-ok bad_environment (load_from_env env.parse_duration env.getenv base) d w) in
    subst (λ k. IsConfig k × (k.listen_addr ≡ address_or env.getenv base.listen_addr)) same
      (valid, address)

-- A configuration that `loadOrCreateConfig` returns is valid. Its address is the one of the
-- environment if that is set, and else that of the file at the expanded path, or the default one
-- if there is no file.
pub load_or_create_config-IsLoaded :
    (env : ConfigEnv) (config_path : Bytes) (c : DaemonConfig)
    → load_or_create_config env config_path ≡ ok c
    → IsLoaded env config_path c
unfolding load_or_create_config
load_or_create_config-IsLoaded env config_path c h =
    let (path, p, h1) = >>=-eq-ok (expand_home env config_path) _ h in
    let (base, b, h2) =
      >>=-eq-ok (file_tier (default_config env.default_storage) (env.config_file path)) _ h1 in
    let (d, w, h3) =
      >>=-eq-ok (wrap_err bad_environment (load_from_env env.parse_duration env.getenv base)) _
        h2 in
    let (u, v, h4) = >>=-eq-ok (wrap_err invalid_config (validate_daemon_config d)) _ h3 in
    let (valid, address) = checked-IsConfig env base d c w v h4 in
    record { valid = valid; path = path; base = base; expanded = p; read = b; address = address }
