-- ===== src/Auth.antt =====
-- internal/auth/auth.go. The signature, issuer, audience and expiry of a token are checked by
-- go-oidc, which is a parameter here: `check` answers with the token if it is good.
pub mod Bearer
pub mod Policy
use book_guard_api.Base.{
  ℕ, suc, Bool, true, false, not, ◌&&◌, ◌||◌, List, [], ◌∷◌, Option, some, none, Text, codes, ◌==◌,
  is_empty, ltb, length, take, drop, map, ascii_lower, trim_space, if◌then◌else◌,
}

pub record Identity : Type 0 where
  pub subject : Text
  pub username : Text
  pub groups : List Text

pub data AuthError : Type 0 where
  unauthenticated forbidden : AuthError

-- What go-oidc returns for a good token: its subject, and the claims if they decode.
pub record Claims : Type 0 where
  pub username : Text
  pub groups : List Text

pub record Token : Type 0 where
  pub subject : Text
  pub claims : Option Claims

unfoldable pub contains : List Text → Text → Bool
contains [] want = false
contains (g ∷ groups) want = if g == want then true else contains groups want

abbrev pub anonymous : Identity
anonymous = record { subject = []; username = []; groups = [] }

abbrev pub identity_of : Token → Claims → Identity
identity_of token claims = record {
  subject = token.subject;
  username = claims.username;
  groups = claims.groups;
}

-- An identity and an error, as the Go method returns both for a caller outside the group.
abbrev pub with_claims : Text → Token → Option Claims → Identity × Option AuthError
with_claims required_group token none = (anonymous, some unauthenticated)
with_claims required_group token (some claims) =
    if not (is_empty required_group) && not (contains claims.groups required_group)
    then (identity_of token claims, some forbidden)
    else (identity_of token claims, none)

abbrev pub with_token : Text → Option Token → Identity × Option AuthError
with_token required_group none = (anonymous, some unauthenticated)
with_token required_group (some token) = with_claims required_group token token.claims

unfoldable pub verify : (Text → Option Token) → Text → Text → Identity × Option AuthError
verify check required_group raw = with_token required_group (check raw)

abbrev pub bearer_prefix : Text
bearer_prefix = codes "Bearer "

-- `strings.EqualFold`, against a text of ASCII letters that only their own two cases fold to.
unfoldable pub equal_fold : Text → Text → Bool
equal_fold s t = map ascii_lower s == map ascii_lower t

-- The token, where the Boolean of the Go function is true.
unfoldable pub parse_bearer : Text → Option Text
parse_bearer h =
    if ltb (length h) (length bearer_prefix) || not (equal_fold (take 7 h) bearer_prefix)
    then none
    else (let token = trim_space (drop 7 h) in if is_empty token then none else some token)

-- What the middleware does with a request: it calls the next handler with an identity in the
-- context, or writes an error.
pub data Verdict : Type 0 where
  admit : Identity → Verdict
  refuse : ℕ → Text → Verdict

abbrev pub verdict : Identity × Option AuthError → Verdict
verdict (id, none) = admit id
verdict (id, some forbidden) = refuse 403 (codes "Forbidden")
verdict (id, some unauthenticated) = refuse 401 (codes "Unauthorized")

abbrev pub judge : (Text → Identity × Option AuthError) → Option Text → Verdict
judge verifier none = refuse 401 (codes "unauthenticated")
judge verifier (some raw) = verdict (verifier raw)

-- `NewHumaMiddleware`, over the value of the Authorization header.
unfoldable pub huma_middleware : (Text → Identity × Option AuthError) → Text → Verdict
huma_middleware verifier header = judge verifier (parse_bearer header)

abbrev pub static_huma_middleware : Identity → Text → Verdict
static_huma_middleware id header = admit id
