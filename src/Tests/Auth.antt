-- ===== src/Tests/Auth.antt =====
-- The theorems of Auth at concrete requests.
use book_guard_api.Base.{
  ℕ, ◌≡◌, ◌≢◌, ◌↔◌, ◌⊎◌, refl, [], ◌∷◌, ◌++◌, map, Option, some, none, Text, codes, ◌==◌,
  ascii_lower, trim_space, trim_left, is_space, if◌then◌else◌,
}
use book_guard_api.Auth.{
  Token, Claims, Verdict, admit, refuse, identity_of, contains, verify, parse_bearer, equal_fold,
  huma_middleware,
}
use book_guard_api.Auth.Bearer.{parse_bearer_iff}
use book_guard_api.Auth.Policy.{MayPass, Authenticates, admit_iff, refuse_iff}

abbrev readers_claims : Claims
readers_claims = record { username = codes "Ada"; groups = codes "readers" ∷ [] }

abbrev ada_token : Token
ada_token = record { subject = codes "ada"; claims = some readers_claims }

-- A verifier that knows one token.
abbrev check_one : Text → Option Token
check_one raw = if raw == codes "t1" then some ada_token else none

abbrev verdict_of : Text → Text → Verdict
verdict_of group header = huma_middleware (verify check_one group) header

lets_reader_in :
    verdict_of (codes "readers") (codes "bearer  t1") ≡ admit (identity_of ada_token readers_claims)
unfolding huma_middleware verify parse_bearer equal_fold ascii_lower trim_space trim_left is_space
    contains ◌==◌
lets_reader_in = refl

keeps_outsider_out :
    verdict_of (codes "admins") (codes "Bearer t1") ≡ refuse 403 (codes "Forbidden")
unfolding huma_middleware verify parse_bearer equal_fold ascii_lower trim_space trim_left is_space
    contains ◌==◌
keeps_outsider_out = refl

admit_iff_example :
    (verdict_of (codes "readers") (codes "Bearer t1")
      ≡ admit (identity_of ada_token readers_claims))
    ↔ ((token : Token) × (claims : Claims) × Authenticates check_one
          (codes "Bearer t1")
          token
          claims
        × MayPass (codes "readers") claims
        × (identity_of token claims ≡ identity_of ada_token readers_claims))
admit_iff_example =
    admit_iff check_one (codes "readers") (codes "Bearer t1") (identity_of ada_token readers_claims)

refuse_iff_example :
    (◌≡◌ {A = ℕ} 403 401 ⊎ ◌≡◌ {A = ℕ} 403 403)
    × (◌≡◌ {A = ℕ} 403 403 ↔ (
        (token : Token) × (claims : Claims) × Authenticates check_one
          (codes "Bearer t1")
          token
          claims
        × (¬ MayPass (codes "admins") claims)))
refuse_iff_example =
    refuse_iff check_one (codes "admins") (codes "Bearer t1") 403 (codes "Forbidden")
      keeps_outsider_out

parse_bearer_iff_example : (parse_bearer (codes "bearer  t1") ≡ some (codes "t1")) ↔ (
    (scheme : Text) × (rest : Text) × (codes "bearer  t1" ≡ scheme ++ rest)
    × (map ascii_lower scheme ≡ codes "bearer ")
    × (trim_space rest ≡ codes "t1")
    × (codes "t1" ≢ []))
parse_bearer_iff_example = parse_bearer_iff (codes "bearer  t1") (codes "t1")
