-- ===== src/Enrich/Network/Attempts.antt =====
-- How often the loop of internal/enrich/httpclient.go asks, and with what it can end.
use book_guard_api.Base.{
  ℕ, zero, suc, ◌+◌, ◌≤◌, ◌≡◌, refl, [], ◌⊎◌, inl, inr, false, Option, none, some, Text, Result, ok,
  err, Option-cases, Bool-cases, arith,
}
use book_guard_api.Enrich.Provider.{ProviderError, upstream}
use book_guard_api.Enrich.Network.{
  Response, Network, Fetched, is_transient, after_wait, pause, after_exchange, attempts,
  http_get_with_retry,
}

-- A count of the exchanges in the world: each adds one, and a wait none.
pub record CountsCalls {W : Type 0} (net : Network W) (calls : W → ℕ) : Type 0 where
  pub exchanged : (url agent : Text) (w : W) → calls (net.exchange url agent w).1 ≡ calls w + 1
  pub waited : (ms : ℕ) (w : W) → calls (net.wait ms w).1 ≡ calls w

-- A response that is not transient, or an error that is neither "not found" nor "no cover".
abbrev pub IsSettled : Result ProviderError Response → Type 0
IsSettled r =
    ((resp : Response) × (r ≡ ok resp) × (is_transient resp.status ≡ false))
    ⊎ ((e : Text) × (r ≡ err (upstream e)))

module _ {W : Type 0} (net : Network W) (calls : W → ℕ) (counts : CountsCalls net calls) where
  -- What the rest of the loop promises, whatever error it goes on with.
  abbrev Keeps : ℕ → (Text → W → Fetched W) → Type 0
  Keeps left again =
      (e : Text) (w : W) → (calls (again e w).1 ≤ calls w + left) × IsSettled (again e w).0

  after_wait-Keeps :
      (left : ℕ) (again : Text → W → Fetched W) (last : Text) (r : Option Text × W)
      → Keeps left again
      → (calls (after_wait net again last r).1 ≤ calls r.1 + left)
        × IsSettled (after_wait net again last r).0
  after_wait-Keeps left again last (none, w) k = k last w
  after_wait-Keeps left again last (some e, w) k = (omega arith, inr (e, refl))

  pause-Keeps :
      (left attempt : ℕ) (again : Text → W → Fetched W) (last : Text) (w : W)
      → Keeps left again
      → (calls (pause net left attempt again last w).1 ≤ calls w + left)
        × IsSettled (pause net left attempt again last w).0
  pause-Keeps zero attempt again last w k = k last w
  pause-Keeps (suc left) attempt again last w k =
      let later = after_wait-Keeps (suc left) again last (net.wait _ w) k in
      (omega (arith, later.0, counts.waited _ w), later.1)

  after_exchange-Keeps :
      (left attempt : ℕ) (again : Text → W → Fetched W) (r : Result Text Response × W)
      → Keeps left again
      → (calls (after_exchange net left attempt again r).1 ≤ calls r.1 + left)
        × IsSettled (after_exchange net left attempt again r).0
  after_exchange-Keeps left attempt again (err e, w) k = pause-Keeps left attempt again e w k
  after_exchange-Keeps left attempt again (ok resp, w) k =
      elim (Bool-cases (is_transient resp.status)) [
        | inl again_later ↦ rw again_later (pause-Keeps left attempt again _ w k)
        | inr settled ↦ rw settled (omega arith, inl (resp, refl, settled))
      ]

  attempts-Keeps :
      (left : ℕ) (url agent : Text) (attempt : ℕ)
      → Keeps left (λ last w. attempts net left url agent attempt last w)
  unfolding attempts
  attempts-Keeps zero url agent attempt last w = (omega arith, inr (_, refl))
  attempts-Keeps (suc left) url agent attempt last w = elim (Option-cases (net.new_request url)) [
    | inr (e, bad) ↦ rw (bad, attempts) (omega arith, inr (e, refl))
    | inl good ↦
        let next =
          after_exchange-Keeps left attempt (λ e w'. attempts net left url agent (suc attempt) e w')
            (net.exchange url agent w) (attempts-Keeps left url agent (suc attempt)) in
        rw (good, attempts) (omega (arith, next.0, counts.exchanged url agent w), next.1)
  ]

  -- A fetch asks at most three times, if an exchange counts one and a wait none, and ends with a
  -- response that is neither a 429 nor a server error, or with an error of the network.
  pub http_get_with_retry_lem :
      (url agent : Text) (w : W)
      → (calls (http_get_with_retry net url agent w).1 ≤ calls w + 3)
        × IsSettled (http_get_with_retry net url agent w).0
  unfolding http_get_with_retry
  http_get_with_retry_lem url agent w = attempts-Keeps 3 url agent 1 [] w
