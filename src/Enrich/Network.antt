-- ===== src/Enrich/Network.antt =====
-- internal/enrich/httpclient.go, over an outside world `W` behind `net/http`.
pub mod Attempts
use book_guard_api.Base.{
  ℕ, zero, suc, ◌+◌, ◌*◌, Bool, true, false, ◌||◌, List, [], ◌∷◌, ◌++◌, Option, none, some, Text,
  codes, ltb, leb, nat_eq, length, take, itoa, pos, if◌then◌else◌, Result, ok, err,
}
use book_guard_api.Enrich.Provider.{ProviderError, upstream}

-- What arrives of a body, and the failure that breaks it off, if one does.
pub record Body : Type 0 where
  pub bytes : List ℕ
  pub breaks : Option Text

pub record Response : Type 0 where
  pub status : ℕ
  pub content_type : Text
  pub etag : Text
  pub body : Body

-- `http.NewRequestWithContext` (a failure or none), `client.Do` on an address and a User-Agent, and
-- the wait for a number of milliseconds, which the context's error ends if it is cancelled.
pub record Network (W : Type 0) : Type 0 where
  pub new_request : Text → Option Text
  pub exchange : Text → Text → W → Result Text Response × W
  pub wait : ℕ → W → Option Text × W

abbrev pub max_attempts : ℕ
max_attempts = 3

abbrev pub is_transient : ℕ → Bool
is_transient status = nat_eq status 429 || leb 500 status

abbrev pub status_error : Text → ℕ → Text
status_error what status = what ++ (codes "status " ++ itoa (pos status))

abbrev pub Fetched : Type 0 → Type 0
Fetched W = Result ProviderError Response × W

abbrev pub give_up : Text → ProviderError
give_up last = upstream (codes "request failed after 3 attempts: " ++ last)

module _ {W : Type 0} (net : Network W) where
  abbrev pub after_wait : (Text → W → Fetched W) → Text → Option Text × W → Fetched W
  after_wait again last (none, w) = again last w
  after_wait again last (some e, w) = (err (upstream e), w)

  -- The pause before the next attempt; there is none after the last.
  abbrev pub pause : ℕ → ℕ → (Text → W → Fetched W) → Text → W → Fetched W
  pause zero attempt again last w = again last w
  pause (suc left) attempt again last w =
      after_wait again last (net.wait (attempt * attempt * 200) w)

  -- `left` attempts remain after the one that gave this answer.
  abbrev pub after_exchange : ℕ → ℕ → (Text → W → Fetched W) → Result Text Response × W → Fetched W
  after_exchange left attempt again (ok resp, w) =
      if is_transient resp.status
      then pause left attempt again (status_error [] resp.status) w
      else (ok resp, w)
  after_exchange left attempt again (err e, w) = pause left attempt again e w

  -- The loop, by the number of attempts that are left.
  unfoldable pub attempts : ℕ → Text → Text → ℕ → Text → W → Fetched W
  attempts zero url agent attempt last w = (err (give_up last), w)
  attempts (suc left) url agent attempt last w = elim (net.new_request url) [
    | some e ↦ (err (upstream e), w)
    | none ↦
        after_exchange left attempt (λ e w'. attempts left url agent (suc attempt) e w')
          (net.exchange url agent w)
  ]

  unfoldable pub http_get_with_retry : Text → Text → W → Fetched W
  http_get_with_retry url agent w = attempts max_attempts url agent 1 [] w

-- `io.ReadAll(io.LimitReader(body, limit))`.
unfoldable pub read_limited : ℕ → Body → Result Text (List ℕ)
read_limited limit body =
    if leb limit (length body.bytes)
    then ok (take limit body.bytes)
    else elim (body.breaks) [ none ↦ ok body.bytes | some e ↦ err e ]
