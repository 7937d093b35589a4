-- ===== src/Server/Config/Safe.antt =====
-- crates/whdr-server/src/config.rs: what a configuration that loads has shown.
use whdr.Common.{
  ℕ, ◌<◌, arith, ◌≡◌, refl, ◌↔◌, subst, is_some, if◌then◌else◌, Result, not, ◌&&◌, ◌||◌, ◌⊎◌, inl,
  inr, List, [], Option, none, some, Bool, true, false, Text, ok, err, ◌==◌, nat_eq, nat_beq_iff,
  Bool-cases, Option-cases, bind_ok, ok-injective, with_context_ok, with_context,
}
use whdr.Server.Config.{
  SocketAddr, is_loopback, DeliveryConfig, Config, is_exposed, Files, Toml, permissions, owner_only,
  enforce_0600, validate, load_secrets, load,
}

-- No listener of the configuration promises what the daemon does not keep.
pub record IsSafe (c : Config) : Type 0 where
  pub no_tls : c.subscribers.tls ≡ none
  pub metrics_local :
      (addr : SocketAddr) → c.server.metrics_addr ≡ some addr → is_loopback addr.ip ≡ true
  pub subscribers_local :
      (is_loopback c.server.sub_addr.ip ≡ true) ⊎ (c.subscribers.allow_plaintext_lan ≡ true)
  pub bounded :
      c.delivery.enabled ≡ true
      → (0 < c.delivery.retention_secs) × (0 < c.delivery.max_bytes) × (0 < c.delivery.max_events)

-- Where the secrets come from: the file has only its owner's permissions, and toml reads them of it.
pub data SecretsFrom (files : Files) (toml : Toml) : Option Text → List (Text × Text) → Type 0 where
  no_section : SecretsFrom files toml none []
  from_file :
      {file text : Text} {mode : ℕ} {secrets : List (Text × Text)}
      → files.mode file ≡ some mode
      → permissions mode ≡ owner_only
      → files.read_to_string file ≡ some text
      → toml.secrets text ≡ some secrets
      → SecretsFrom files toml (some file) secrets

enforce_0600_ok :
    (files : Files) (path : Text)
    → enforce_0600 files path ≡ ok tt
    → (mode : ℕ) × (files.mode path ≡ some mode) × (permissions mode ≡ owner_only)
unfolding enforce_0600
enforce_0600_ok files path h = elim (Option-cases (files.mode path)) [
  | inl e ↦ let t = rw (enforce_0600, e) at h in cc
  | inr (mode, e) ↦ elim (Bool-cases (permissions mode == owner_only)) [
    | inl q ↦ (mode, e, (nat_beq_iff _ _).0 q)
    | inr q ↦ let t = rw (enforce_0600, e, q) at h in cc
  ]
]

load_secrets-SecretsFrom :
    (files : Files) (toml : Toml) (section : Option Text) {file : Option Text}
    {secrets : List (Text × Text)}
    → load_secrets files toml section ≡ ok (file, secrets)
    → SecretsFrom files toml file secrets
unfolding load_secrets
load_secrets-SecretsFrom files toml none h =
    subst (λ p. SecretsFrom files toml p.0 p.1) (ok-injective h) no_section
load_secrets-SecretsFrom files toml (some path) h =
    let (u, a, h) = bind_ok (enforce_0600 files path) _ h in
    let (text, b, h) = bind_ok (with_context (files.read_to_string path) _) _ h in
    let (values, c, h) = bind_ok (with_context (toml.secrets text) _) _ h in
    let (mode, m, p) = enforce_0600_ok files path a in
    subst (λ p. SecretsFrom files toml p.0 p.1) (ok-injective h)
      (from_file m p (with_context_ok _ _ b) (with_context_ok _ _ c))

-- A refusal that was not taken.
else_ok :
    {A E : Type 0} (b : Bool) (e : E) (r : Result A E) {a : A}
    → (if b then err e else r) ≡ ok a
    → (b ≡ false) × (r ≡ ok a)
else_ok true e r h = cc
else_ok false e r h = (refl, h)

is_some-false : {A : Type 0} (o : Option A) → (is_some o ≡ false) ↔ (o ≡ none)
is_some-false none = (λ h. refl, λ h. refl)
is_some-false (some a) = (λ h. cc, λ h. cc)

is_exposed-false :
    (o : Option SocketAddr)
    → (is_exposed o ≡ false) ↔ ((addr : SocketAddr) → o ≡ some addr → is_loopback addr.ip ≡ true)
is_exposed-false none = (λ h addr e. cc, λ h. refl)
is_exposed-false (some a) = (λ h addr e. ground (arith, h, e), λ h. ground (arith, h a refl))

is_lan_false :
    (loopback tls lan : Bool)
    → tls ≡ false
    → ((not loopback && not tls && not lan) ≡ false) ↔ ((loopback ≡ true) ⊎ (lan ≡ true))
is_lan_false true tls lan h = (λ e. inl refl, λ e. refl)
is_lan_false false true lan h = cc
is_lan_false false false true h = (λ e. inr refl, λ e. refl)
is_lan_false false false false h = (λ e. cc, λ e. elim e [ inl x ↦ cc | inr x ↦ cc ])

Bounded : DeliveryConfig → Type 0
Bounded d = d.enabled ≡ true → (0 < d.retention_secs) × (0 < d.max_bytes) × (0 < d.max_events)

delivery_false :
    (d : DeliveryConfig)
    → ((d.enabled && (d.retention_secs == 0 || d.max_bytes == 0 || d.max_events == 0)) ≡ false)
      ↔ Bounded d
unfolding Bounded
delivery_false d = (
  λ h e. ground arith,
  λ h. elim (Bool-cases d.enabled) [
    | inl e ↦ let (r, b, n) = h e in ground arith
    | inr e ↦ ground arith
  ],
)

-- The validation against what it promises.
validate_iff : (c : Config) → (validate c ≡ ok tt) ↔ IsSafe c
unfolding validate Bounded
validate_iff c = (
  λ h.
      let (a, h) = else_ok _ _ _ h in
      let (b, h) = else_ok _ _ _ h in
      let (l, h) = else_ok _ _ _ h in
      let (d, h) = else_ok _ _ _ h in
      record {
        no_tls = (is_some-false _).0 a;
        metrics_local = (is_exposed-false _).0 b;
        subscribers_local = (is_lan_false _ _ _ a).0 l;
        bounded = (delivery_false c.delivery).0 d;
      },
  λ s.
      let a = (is_some-false _).1 s.no_tls in
      rw
        (
          validate,
          a,
          (is_exposed-false _).1 s.metrics_local,
          (is_lan_false _ false _ refl).1 s.subscribers_local,
          (delivery_false c.delivery).1 s.bounded,
        )
        refl,
)

-- A configuration that loads has no TLS, its metrics address is a loopback one if there is one, and so
-- is its subscriber address unless plaintext is allowed on the LAN; the bounds of the delivery log are
-- positive where it is enabled. Its secrets were read from a file with mode 0600, or there are none.
pub load-IsSafe :
    (files : Files) (toml : Toml) (path : Text) (c : Config)
    → load files toml path ≡ ok c
    → IsSafe c × SecretsFrom files toml c.secrets_file c.secrets
unfolding load
load-IsSafe files toml path c h =
    let (text, a, h) = bind_ok (with_context (files.read_to_string path) _) _ h in
    let (raw, b, h) = bind_ok (with_context (toml.raw_config text) _) _ h in
    let (loaded, s, h) = bind_ok (load_secrets files toml raw.secrets) _ h in
    let (u, v, h) = bind_ok (validate _) _ h in
    let e = ok-injective h in
    subst (λ c. IsSafe c × SecretsFrom files toml c.secrets_file c.secrets) e
      ((validate_iff _).0 v, load_secrets-SecretsFrom files toml raw.secrets s)
