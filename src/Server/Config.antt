-- ===== src/Server/Config.antt =====
-- cmd/api/main.go: what the environment makes of the server. A function that ends the process
-- returns the message that it logs first.
use book_guard_api.Base.{
  pos, ◌≡◌, ap, ◌∙◌, inl, inr, Bool, false, [], ◌∷◌, Option, none, some, Text, codes, ◌==◌,
  is_empty, if◌then◌else◌, Result, ok, err, Bool-cases, Result-cases, arith,
}
use book_guard_api.Auth.{
  Identity, Claims, Token, Verdict, admit, identity_of, verify, huma_middleware,
  static_huma_middleware,
}
use book_guard_api.Auth.Policy.{MayPass, Authenticates, admit_iff}
use book_guard_api.Books.Postgres.Migrations.{Files, migrate}
use book_guard_api.Enrich.Worker.{Worker, new_worker}

-- `os.Getenv`: the empty text for a variable that is not set.
abbrev pub Env : Type 0
Env = Text → Text

abbrev pub is_true : Text → Bool
is_true t = t == codes "true"

pub data StoreChoice : Type 0 where
  in_memory : StoreChoice
  postgres : Text → StoreChoice

-- `pgxpool.New`, with a failure or none, and `Exec` on the pool that it gives.
pub record Pools (W : Type 0) : Type 0 where
  pub connect : Text → W → Option Text × W
  pub run : Text → W → Option Text × W

module _ {W : Type 0} (pools : Pools W) (files : Files) where
  abbrev pub migrated : Text → Option Text × W → Result Text StoreChoice × W
  migrated dsn (none, w) = (ok (postgres dsn), w)
  migrated dsn (some e, w) = (err (codes "run migrations"), w)

  abbrev pub connected : Text → Option Text × W → Result Text StoreChoice × W
  connected dsn (none, w) = migrated dsn (migrate pools.run files w)
  connected dsn (some e, w) = (err (codes "connect to postgres"), w)

  unfoldable pub new_store : Env → W → Result Text StoreChoice × W
  new_store env w =
      if env (codes "STORE") == codes "postgres"
      then (let dsn = env (codes "DATABASE_URL") in
          if is_empty dsn
          then (err (codes "STORE=postgres requires DATABASE_URL"), w)
          else connected dsn (pools.connect dsn w))
      else (ok in_memory, w)

-- The worker, or none where the no-op enqueuer takes its place.
unfoldable pub new_enricher : Env → Option Worker
new_enricher env =
    if is_true (env (codes "ENRICH_DISABLED"))
    then none
    else some (new_worker (record { workers = pos 0; queue_size = pos 0; sweep_every = pos 0 }))

-- The discovery of go-oidc, for an issuer and an audience.
abbrev pub Discover : Type 0
Discover = Text → Text → Result Text (Text → Option Token)

abbrev pub dev_identity : Text → Identity
dev_identity required_group = record {
  subject = codes "dev";
  username = codes "dev";
  groups = required_group ∷ [];
}

-- `NewOIDCVerifier` and what `newAuthMiddleware` does with it.
abbrev pub discovered : Text → Result Text (Text → Option Token) → Result Text (Text → Verdict)
discovered required_group (err e) = err (codes "configure OIDC verifier")
discovered required_group (ok check) = ok (huma_middleware (verify check required_group))

unfoldable pub new_auth_middleware : Env → Discover → Result Text (Text → Verdict)
new_auth_middleware env discover =
    let required_group = env (codes "OIDC_REQUIRED_GROUP") in
    let issuer = env (codes "OIDC_ISSUER") in
    if is_true (env (codes "AUTH_DISABLED"))
    then ok (static_huma_middleware (dev_identity required_group))
    else (if is_empty issuer
        then err (codes "OIDC_ISSUER is required")
        else discovered required_group (discover issuer (env (codes "OIDC_AUDIENCE"))))

-- A server that starts without AUTH_DISABLED=true lets a request in only with a token that the
-- issuer's discovery made acceptable, and only for a caller in the required group, if there is one.
pub new_auth_middleware_lem :
    (env : Env) (discover : Discover) (middleware : Text → Verdict) (header : Text) (id : Identity)
    → is_true (env (codes "AUTH_DISABLED")) ≡ false
    → new_auth_middleware env discover ≡ ok middleware
    → middleware header ≡ admit id
    → (check : Text → Option Token) × (discover
          (env (codes "OIDC_ISSUER"))
          (env (codes "OIDC_AUDIENCE"))
        ≡ ok check)
      × (is_empty (env (codes "OIDC_ISSUER")) ≡ false)
      × (token : Token) × (claims : Claims) × Authenticates check header token claims
      × MayPass (env (codes "OIDC_REQUIRED_GROUP")) claims
      × (identity_of token claims ≡ id)
unfolding new_auth_middleware
new_auth_middleware_lem env discover middleware header id closed started admitted =
    let group = env (codes "OIDC_REQUIRED_GROUP") in
    elim (Bool-cases (is_empty (env (codes "OIDC_ISSUER")))) [
      | inl unset ↦ absurd (ground (arith, rw (closed, unset) at started))
      | inr issuer ↦
          elim (Result-cases (discover (env (codes "OIDC_ISSUER")) (env (codes "OIDC_AUDIENCE")))) [
            | inr (e, failed) ↦ absurd (ground (arith, rw (closed, issuer, failed) at started))
            | inl (check, found) ↦
                let same : huma_middleware (verify check group) ≡ middleware =
                  ground (arith, rw (closed, issuer, found) at started) in
                let (token, claims, auth, pass, known) =
                  (admit_iff check group header id).0 (ap (λ m. m header) same ∙ admitted) in
                (check, found, issuer, token, claims, auth, pass, known)
          ]
    ]
