-- ===== src/Tests/Config.antt =====
-- The theorems of Server/Config and of the migrations, applied to a small deployment.
use book_guard_api.Base.{
  ◌≡◌, ◌↔◌, refl, inl, inr, true, false, [], ◌∷◌, ◌++◌, List, All, In, IsNodup, IsSorted, map,
  Option, none, some, Text, codes, ◌==◌, is_empty, ascii_lower, trim_space, trim_left, is_space,
  if◌then◌else◌, sort_texts, insert_text, text_lt, ap, ok, err,
}
use book_guard_api.Auth.{
  Token, Claims, Verdict, admit, identity_of, contains, verify, parse_bearer, equal_fold,
  huma_middleware,
}
use book_guard_api.Auth.Policy.{MayPass, Authenticates}
use book_guard_api.Books.Postgres.Migrations.{
  Files, Migration, read_all, all_migrations, apply_all, migrate,
}
use book_guard_api.Books.Postgres.Migrations.Applied.{name_of, Applied, migrate_lem}
use book_guard_api.Server.Config.{Env, Discover, new_auth_middleware, new_auth_middleware_lem}

abbrev reader_claims : Claims
reader_claims = record { username = codes "Ada"; groups = codes "readers" ∷ [] }

abbrev known_token : Token
known_token = record { subject = codes "ada"; claims = some reader_claims }

abbrev check_token : Text → Option Token
check_token raw = if raw == codes "t1" then some known_token else none

abbrev deployed : Env
deployed name =
    if name == codes "OIDC_ISSUER"
    then codes "https://id"
    else (if name == codes "OIDC_REQUIRED_GROUP" then codes "readers" else [])

abbrev discover_one : Discover
discover_one issuer audience = ok check_token

abbrev middleware : Text → Verdict
middleware = huma_middleware (verify check_token (codes "readers"))

started : new_auth_middleware deployed discover_one ≡ ok middleware
unfolding new_auth_middleware ◌==◌
started = refl

admitted : middleware (codes "Bearer t1") ≡ admit (identity_of known_token reader_claims)
unfolding huma_middleware verify parse_bearer equal_fold ascii_lower trim_space trim_left is_space
    contains ◌==◌
admitted = refl

auth_on : deployed (codes "AUTH_DISABLED") == codes "true" ≡ false
unfolding ◌==◌
auth_on = refl

new_auth_middleware_lem_example :
    (check : Text → Option Token) × (discover_one
        (deployed (codes "OIDC_ISSUER"))
        (deployed (codes "OIDC_AUDIENCE"))
      ≡ ok check)
    × (is_empty (deployed (codes "OIDC_ISSUER")) ≡ false)
    × (token : Token) × (claims : Claims) × Authenticates check (codes "Bearer t1") token claims
    × MayPass (deployed (codes "OIDC_REQUIRED_GROUP")) claims
    × (identity_of token claims ≡ identity_of known_token reader_claims)
new_auth_middleware_lem_example =
    new_auth_middleware_lem deployed discover_one middleware (codes "Bearer t1")
      (identity_of known_token reader_claims) auth_on started admitted

-- Without an issuer nothing starts.
unset : new_auth_middleware (λ name. []) discover_one ≡ err (codes "OIDC_ISSUER is required")
unfolding new_auth_middleware ◌==◌
unset = refl

-- The world is the texts of SQL that have run, the last first.
abbrev record_sql : Text → List Text → Option Text × List Text
record_sql sql log = (none, sql ∷ log)

abbrev two_files : List Text
two_files = codes "0002.sql" ∷ codes "0001.sql" ∷ []

abbrev files : Files
files = record { names = ok two_files; read_file = λ name. ok (codes "-- " ++ name) }

two_files-IsNodup : IsNodup two_files
unfolding ◌==◌
two_files-IsNodup = (
  λ i. elim i [
    | inl same ↦
        let no : false ≡ true = ap (λ (n : Text). n == codes "0001.sql") same in absurd (cc no)
    | inr none_left ↦ none_left
  ],
  ((λ i. i), tt),
)

ran_both : migrate record_sql files [] ≡ (none, codes "-- 0002.sql" ∷ codes "-- 0001.sql" ∷ [])
unfolding migrate all_migrations read_all apply_all sort_texts insert_text text_lt
ran_both = refl

migrate_lem_example :
    (ms : List Migration) × IsSorted (map name_of ms)
    × ((name : Text) → In name (map name_of ms) ↔ In name two_files)
    × All (λ m. files.read_file m.name ≡ ok m.sql) ms
    × Applied record_sql ms [] (codes "-- 0002.sql" ∷ codes "-- 0001.sql" ∷ [])
migrate_lem_example =
    migrate_lem record_sql files two_files [] (codes "-- 0002.sql" ∷ codes "-- 0001.sql" ∷ []) refl
      two_files-IsNodup ran_both
