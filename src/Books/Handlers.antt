-- ===== src/Books/Handlers.antt =====
-- internal/books/handlers.go, over any repository and any enqueuer. A handler changes the server's
-- state and returns what Huma writes, or an error with its status. The identity is the one that the
-- auth middleware left in the context. Logging and the registration of the routes are left out.
pub mod Refusals
pub mod Errors
use book_guard_api.Base.{
  ℕ, ℤ, Bool, true, false, not, List, [], ◌∷◌, ◌++◌, map, Option, some, none, Text, codes, ◌==◌,
  is_empty, CaseTable, if◌then◌else◌, Result, ok, err, Action, and_then, ◌>>=◌, ◌>>◌, pure, throw,
  pos,
}
use book_guard_api.Http.{HttpError, http_error, unauthorized}
use book_guard_api.Auth.{Identity}
use book_guard_api.Enrich.Provider.{Cover}
use book_guard_api.Books.Isbn.{InvalidIsbn, canonical_isbn}
use book_guard_api.Books.Book.{Book}
use book_guard_api.Books.Memory.{StoreError, not_found, broken}
use book_guard_api.Books.Repository.{Repository, Enqueuer}

pub record BookWrite : Type 0 where
  pub isbn : Text
  pub title : Text
  pub author : Text
  pub status : Text
  pub rating : ℤ
  pub opinion : Text
  pub tags : List Text

abbrev pub to_book : BookWrite → Book
to_book w = record {
  id = [];
  user_id = [];
  isbn = w.isbn;
  title = w.title;
  author = w.author;
  status = w.status;
  rating = w.rating;
  opinion = w.opinion;
  tags = w.tags;
  created_at = 0;
  updated_at = 0;
  description = [];
  publisher = [];
  published_date = [];
  page_count = pos 0;
  enrichment_status = [];
  enriched_at = none;
  has_cover = false;
  cover_url = [];
}

-- A field that is left out is a nil pointer.
pub record BookPatch : Type 0 where
  pub isbn : Option Text
  pub title : Option Text
  pub author : Option Text
  pub status : Option Text
  pub rating : Option ℤ
  pub opinion : Option Text
  pub tags : Option (List Text)

abbrev pub given {ℓ} : {A : Type ℓ} → Option A → A → A
given none old = old
given (some new) old = new

unfoldable pub apply_to : BookPatch → Book → Book
apply_to p b = record b {
  isbn = given p.isbn b.isbn;
  title = given p.title b.title;
  author = given p.author b.author;
  status = given p.status b.status;
  rating = given p.rating b.rating;
  opinion = given p.opinion b.opinion;
  tags = given p.tags b.tags;
}

pub record CoverOutput : Type 0 where
  pub content_type : Text
  pub cache_control : Text
  pub etag : Text
  pub body : List ℕ

pub record RefreshOutput : Type 0 where
  pub status : Text
  pub isbn : Text

abbrev pub unprocessable : Text → HttpError
unprocessable message = http_error 422 message

abbrev pub server_error : Text → HttpError
server_error message = http_error 500 message

-- `errors.Is(err, ErrNotFound)` gives a 404, any other error a 500.
abbrev pub missing_or : Text → Text → StoreError → HttpError
missing_or missing other not_found = http_error 404 missing
missing_or missing other (broken detail) = server_error other

abbrev pub subject_of : Option Identity → Result HttpError Text
subject_of none = err unauthorized
subject_of (some id) = if is_empty id.subject then err unauthorized else ok id.subject

abbrev pub invalid_isbn_message : Text
invalid_isbn_message = codes "isbn must be 10 or 13 characters once separators are removed"

abbrev pub as_unprocessable : Result InvalidIsbn Text → Result HttpError Text
as_unprocessable (ok isbn) = ok isbn
as_unprocessable (err e) = err (unprocessable invalid_isbn_message)

unfoldable pub isbn_from_input : CaseTable → Text → Result HttpError Text
isbn_from_input table raw = as_unprocessable (canonical_isbn table raw)

abbrev pub with_isbn : BookPatch → Result HttpError Text → Result HttpError BookPatch
with_isbn p (ok isbn) = ok (record p { isbn = some isbn })
with_isbn p (err e) = err e

-- A patch with its ISBN in canonical form, if it has one.
abbrev pub canonical_patch : CaseTable → BookPatch → Option Text → Result HttpError BookPatch
canonical_patch table p none = ok p
canonical_patch table p (some raw) = with_isbn p (isbn_from_input table raw)

unfoldable pub set_cover_url : Book → Book
set_cover_url b =
    if b.has_cover then record b { cover_url = codes "/books/" ++ (b.id ++ codes "/cover") } else b

module _ (repo : Repository) (queue : Enqueuer) where
  -- The state behind a `Handler`: the repository's and the enqueuer's.
  pub record Server : Type 0 where
    pub store : repo.State
    pub jobs : queue.Jobs

  abbrev pub Handles : Type 0 → Type 0
  Handles A = Action Server HttpError A

  abbrev pub returned : {A : Type 0} → Result HttpError A → Handles A
  returned r srv = (r, srv)

  abbrev pub stored :
      {A : Type 0}
      → (StoreError → HttpError)
      → queue.Jobs
      → Result StoreError A × repo.State
      → Result HttpError A × Server
  stored f jobs (ok a, s) = (ok a, record { store = s; jobs = jobs })
  stored f jobs (err e, s) = (err (f e), record { store = s; jobs = jobs })

  -- A call of the repository, its error turned into a response.
  abbrev pub on_store :
      {A : Type 0} → (StoreError → HttpError) → Action repo.State StoreError A → Handles A
  on_store f m srv = stored f srv.jobs (m srv.store)

  abbrev pub require_user : Option Identity → Handles Text
  require_user who = returned (subject_of who)

  abbrev pub after_ensure : Text → queue.Jobs → Result StoreError (Unit {0}) × repo.State → Server
  after_ensure isbn jobs (ok _, s) = record { store = s; jobs = queue.enqueue isbn jobs }
  after_ensure isbn jobs (err e, s) = record { store = s; jobs = jobs }

  unfoldable pub enqueue_enrichment : Text → Handles (Unit {0})
  enqueue_enrichment isbn srv = (
    ok tt,
    if is_empty isbn then srv else after_ensure isbn srv.jobs (repo.ensure_edition isbn srv.store),
  )

  unfoldable pub create : CaseTable → Text → ℕ → Option Identity → BookWrite → Handles Book
  create table id now who body = do
    user ← require_user who
    isbn ← returned (isbn_from_input table body.isbn)
    b ←
        on_store (λ _. server_error (codes "could not save book"))
          (repo.create id now user (record (to_book body) { isbn = isbn }))
    enqueue_enrichment b.isbn
    created ← on_store (λ _. server_error (codes "could not fetch book")) (repo.get user b.id)
    pure (set_cover_url created)

  unfoldable pub list : Option Identity → Handles (List Book)
  list who = do
    user ← require_user who
    found ← on_store (λ _. server_error (codes "could not list books")) (repo.list user)
    pure (map set_cover_url found)

  unfoldable pub get : Option Identity → Text → Handles Book
  get who id = do
    user ← require_user who
    b ←
        on_store (missing_or (codes "book not found") (codes "could not fetch book"))
          (repo.get user id)
    pure (set_cover_url b)

  unfoldable pub update : CaseTable → ℕ → Option Identity → Text → BookPatch → Handles Book
  update table now who id body = do
    user ← require_user who
    existing ←
        on_store (missing_or (codes "book not found") (codes "could not fetch book"))
          (repo.get user id)
    patch ← returned (canonical_patch table body body.isbn)
    changed ←
        on_store (missing_or (codes "book not found") (codes "could not update book"))
          (repo.update now user (apply_to patch existing))
    (if changed.isbn == existing.isbn then pure tt else enqueue_enrichment changed.isbn)
    b ← on_store (λ _. server_error (codes "could not fetch book")) (repo.get user id)
    pure (set_cover_url b)

  unfoldable pub delete : Option Identity → Text → Handles (Unit {0})
  delete who id = do
    user ← require_user who
    on_store (missing_or (codes "book not found") (codes "could not delete book"))
        (repo.delete user id)

  unfoldable pub cover : Option Identity → Text → Handles CoverOutput
  cover who id = do
    user ← require_user who
    c ←
        on_store (missing_or (codes "cover not found") (codes "could not fetch cover"))
          (repo.cover_for_book user id)
    pure (record {
      content_type = c.content_type;
      cache_control = codes "private, max-age=86400";
      etag = c.etag;
      body = c.bytes;
    })

  abbrev pub enqueued : Text → Handles (Unit {0})
  enqueued isbn srv = (ok tt, record srv { jobs = queue.enqueue isbn srv.jobs })

  unfoldable pub refresh : Option Identity → Text → Handles RefreshOutput
  refresh who id = do
    user ← require_user who
    b ←
        on_store (missing_or (codes "book not found") (codes "could not fetch book"))
          (repo.get user id)
    returned (
        if is_empty b.isbn then err (unprocessable (codes "book has no ISBN to enrich")) else ok tt)
    on_store (λ _. server_error (codes "could not queue refresh"))
        (repo.mark_edition_pending b.isbn)
    enqueued b.isbn
    pure (record { status = codes "queued"; isbn = b.isbn })
