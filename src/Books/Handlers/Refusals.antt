-- ===== src/Books/Handlers/Refusals.antt =====
-- What the handlers of internal/books/handlers.go answer 401 to, over any repository and enqueuer.
use book_guard_api.Base.{
  ℕ, ◌≡◌, ◌≢◌, ◌⊎◌, inl, inr, refl, ap, Bool, true, false, if◌then◌else◌, [], ◌∷◌, Option, some,
  none, Text, CaseTable, Result, ok, err, Action, and_then, ◌>>=◌, arith,
}
use book_guard_api.Http.{HttpError, http_error, unauthorized}
use book_guard_api.Auth.{Identity}
use book_guard_api.Books.Memory.{StoreError, not_found, broken}
use book_guard_api.Books.Isbn.{InvalidIsbn, canonical_isbn}
use book_guard_api.Books.Repository.{Repository, Enqueuer}
use book_guard_api.Books.Handlers.{
  BookPatch, Server, Handles, subject_of, missing_or, require_user, on_store, stored, returned,
  enqueue_enrichment, enqueued, isbn_from_input, as_unprocessable, invalid_isbn_message,
  canonical_patch, with_isbn,
}

-- Nobody is signed in, or somebody whose subject is empty.
abbrev pub IsStranger : Option Identity → Type 0
IsStranger who = (who ≡ none) ⊎ ((i : Identity) × (who ≡ some i) × (i.subject ≡ []))

pub subject_of-cases :
    (who : Option Identity)
    → (IsStranger who × (subject_of who ≡ err unauthorized))
      ⊎ ((¬ IsStranger who) × ((user : Text) × (subject_of who ≡ ok user)))
subject_of-cases none = inl (inl refl, refl)
subject_of-cases (some i) = by_subject i.subject refl
  where
    by_subject :
        (t : Text)
        → i.subject ≡ t
        → (IsStranger (some i) × (subject_of (some i) ≡ err unauthorized))
          ⊎ ((¬ IsStranger (some i)) × ((user : Text) × (subject_of (some i) ≡ ok user)))
    by_subject [] e = inl (inr (i, refl, e), rw e)
    by_subject (c ∷ t) e = inr (
      λ stranger. elim stranger [
        | inl h ↦ absurd (cc h)
        | inr (j, same, blank) ↦ absurd (cc (same, blank, e))
      ],
      (i.subject, rw e),
    )

status_of : HttpError → ℕ
status_of (http_error n message) = n

module _ (repo : Repository) (queue : Enqueuer) where
  -- What never answers 401, from no state.
  pub NeverRefuses : {A : Type 0} → Handles repo queue A → Type 0
  NeverRefuses m = (srv : Server repo queue) → (m srv).0 ≢ err unauthorized

  never_then :
      {A B : Type 0} (f : A → Handles repo queue B) (r : Result HttpError A × Server repo queue)
      → r.0 ≢ err unauthorized
      → ((a : A) → NeverRefuses (f a))
      → (and_then r f).0 ≢ err unauthorized
  unfolding NeverRefuses
  never_then f (ok a, t) fine rest h = rest a t h
  never_then f (err e, t) fine rest h = fine (cc h)

  pub never_bind :
      {A B : Type 0} (m : Handles repo queue A) (f : A → Handles repo queue B)
      → NeverRefuses m
      → ((a : A) → NeverRefuses (f a))
      → NeverRefuses (m >>= f)
  unfolding NeverRefuses
  never_bind m f fine rest srv = never_then f (m srv) (fine srv) rest

  never_stored :
      {A : Type 0} (f : StoreError → HttpError) (jobs : queue.Jobs)
      (r : Result StoreError A × repo.State)
      → ((e : StoreError) → f e ≢ unauthorized)
      → (stored repo queue f jobs r).0 ≢ err unauthorized
  never_stored f jobs (ok a, s) fine h = absurd (cc h)
  never_stored f jobs (err e, s) fine h = fine e (cc h)

  never_on_store :
      {A : Type 0} (f : StoreError → HttpError) (m : Action repo.State StoreError A)
      → ((e : StoreError) → f e ≢ unauthorized)
      → NeverRefuses (on_store repo queue f m)
  unfolding NeverRefuses
  never_on_store f m fine srv = never_stored f srv.jobs (m srv.store) fine

  not_401 : (n : ℕ) (message : Text) → n ≢ 401 → http_error n message ≢ unauthorized
  unfolding status_of
  not_401 n message other h = other (ap status_of h)

  missing_or_401 :
      (missing other : Text) (e : StoreError) → missing_or missing other e ≢ unauthorized
  missing_or_401 missing other not_found = not_401 404 missing (ground arith)
  missing_or_401 missing other (broken detail) = not_401 500 other (ground arith)

  pub never_isbn : (table : CaseTable) (raw : Text) → isbn_from_input table raw ≢ err unauthorized
  unfolding isbn_from_input
  never_isbn table raw = by_result (canonical_isbn table raw)
    where
      by_result : (r : Result InvalidIsbn Text) → as_unprocessable r ≢ err unauthorized
      by_result (ok isbn) h = absurd (cc h)
      by_result (err e) h = not_401 422 invalid_isbn_message (ground arith) (cc h)

  pub never_patch :
      (table : CaseTable) (p : BookPatch) (o : Option Text)
      → canonical_patch table p o ≢ err unauthorized
  never_patch table p none = λ h. absurd (cc h)
  never_patch table p (some raw) = by_result (isbn_from_input table raw) (never_isbn table raw)
    where
      by_result :
          (r : Result HttpError Text) → r ≢ err unauthorized → with_isbn p r ≢ err unauthorized
      by_result (ok isbn) fine h = absurd (cc h)
      by_result (err e) fine h = fine (cc h)

  -- A stranger is answered 401 and nothing is done; nobody else is answered 401.
  abbrev pub IsGuarded :
      {A : Type 0}
      → Option Identity
      → Server repo queue
      → Result HttpError A × Server repo queue
      → Type 0
  IsGuarded who srv r =
      (IsStranger who × (r ≡ (err unauthorized, srv)))
      ⊎ ((¬ IsStranger who) × (r.0 ≢ err unauthorized))

  pub guarded :
      {A : Type 0} (who : Option Identity) (srv : Server repo queue)
      (k : Text → Handles repo queue A)
      → ((user : Text) → NeverRefuses (k user))
      → IsGuarded who srv ((require_user repo queue who >>= k) srv)
  unfolding NeverRefuses
  guarded who srv k fine = elim (subject_of-cases who) [
    | inl (stranger, h) ↦ inl (stranger, rw h)
    | inr (known, (user, h)) ↦ inr (known, rw h (fine user srv))
  ]

  pub turned_away :
      {A : Type 0} {who : Option Identity} {srv : Server repo queue}
      {r : Result HttpError A × Server repo queue}
      → IsStranger who
      → IsGuarded who srv r
      → r.1 ≡ srv
  turned_away stranger (inl (h, e)) = ap (λ x. x.1) e
  turned_away stranger (inr (known, e)) = absurd (known stranger)

  pub never_pure : {A : Type 0} (a : A) → NeverRefuses (λ t. (ok a, t))
  unfolding NeverRefuses
  never_pure a t h = absurd (cc h)

  pub never_returned :
      {A : Type 0} (r : Result HttpError A)
      → r ≢ err unauthorized
      → NeverRefuses (returned repo queue r)
  unfolding NeverRefuses
  never_returned r fine t = fine

  pub never_enqueued : (isbn : Text) → NeverRefuses (enqueued repo queue isbn)
  unfolding NeverRefuses
  never_enqueued isbn t h = absurd (cc h)

  pub never_maybe :
      (b : Bool) (m : Handles repo queue (Unit {0}))
      → NeverRefuses m
      → NeverRefuses (if b then (λ t. (ok tt, t)) else m)
  never_maybe true m fine = never_pure tt
  never_maybe false m fine = fine

  pub never_blank :
      (b : Bool) (message : Text)
      → NeverRefuses (returned repo queue (if b then err (http_error 422 message) else ok tt))
  unfolding NeverRefuses
  never_blank true message t h = not_401 422 message (ground arith) (cc h)
  never_blank false message t h = absurd (cc h)

  pub broken_call :
      {A : Type 0} (message : Text) (m : Action repo.State StoreError A)
      → NeverRefuses (on_store repo queue (λ e. http_error 500 message) m)
  broken_call message m = never_on_store _ m λ e. not_401 500 message (ground arith)

  pub missing_call :
      {A : Type 0} (missing other : Text) (m : Action repo.State StoreError A)
      → NeverRefuses (on_store repo queue (missing_or missing other) m)
  missing_call missing other m = never_on_store _ m (missing_or_401 missing other)

  pub never_enqueue : (isbn : Text) → NeverRefuses (enqueue_enrichment repo queue isbn)
  unfolding NeverRefuses enqueue_enrichment
  never_enqueue isbn t h = absurd (cc h)
