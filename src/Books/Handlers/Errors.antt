-- ===== src/Books/Handlers/Errors.antt =====
-- Who is refused by the handlers of internal/books/handlers.go, over any repository and enqueuer.
use book_guard_api.Base.{ℕ, if◌then◌else◌, Option, Text, codes, is_empty, ◌==◌, CaseTable, ok, err}
use book_guard_api.Http.{http_error}
use book_guard_api.Auth.{Identity}
use book_guard_api.Books.Repository.{Repository, Enqueuer}
use book_guard_api.Books.Handlers.{
  BookWrite, BookPatch, Server, missing_or, apply_to, on_store, returned, enqueue_enrichment,
  enqueued, create, list, get, update, delete, cover, refresh,
}
use book_guard_api.Books.Handlers.Refusals.{
  IsGuarded, guarded, never_bind, never_pure, never_returned, never_isbn, never_patch, never_maybe,
  never_blank, broken_call, missing_call, never_enqueue, never_enqueued,
}

module _ (repo : Repository) (queue : Enqueuer) where
  module _ (table : CaseTable) (who : Option Identity) (srv : Server repo queue) where
    pub create-IsGuarded :
        (id : Text) (now : ℕ) (body : BookWrite)
        → IsGuarded repo queue who srv (create repo queue table id now who body srv)
    unfolding create
    create-IsGuarded id now body = guarded repo queue who srv _ λ user.
        never_bind repo queue _ _
          (never_returned repo queue _ (never_isbn repo queue table body.isbn))
          λ isbn. never_bind repo queue _ _ (broken_call repo queue _ _) λ b.
            never_bind repo queue _ _ (never_enqueue repo queue b.isbn) λ u.
              never_bind repo queue _ _ (broken_call repo queue _ _) λ c. never_pure repo queue _

    pub list-IsGuarded : IsGuarded repo queue who srv (list repo queue who srv)
    unfolding list
    list-IsGuarded = guarded repo queue who srv _ λ user.
        never_bind repo queue _ _ (broken_call repo queue _ _) λ found. never_pure repo queue _

    pub get-IsGuarded : (id : Text) → IsGuarded repo queue who srv (get repo queue who id srv)
    unfolding get
    get-IsGuarded id = guarded repo queue who srv _ λ user.
        never_bind repo queue _ _ (missing_call repo queue _ _ _) λ b. never_pure repo queue _

    pub update-IsGuarded :
        (now : ℕ) (id : Text) (patch : BookPatch)
        → IsGuarded repo queue who srv (update repo queue table now who id patch srv)
    unfolding update
    update-IsGuarded now id patch = guarded repo queue who srv _ λ user.
        never_bind repo queue _ _ (missing_call repo queue _ _ _) λ old.
          never_bind repo queue _ _
            (never_returned repo queue _ (never_patch repo queue table patch patch.isbn))
            λ p.
              never_bind repo queue
                (on_store repo queue
                  (missing_or (codes "book not found") (codes "could not update book"))
                  (repo.update now user (apply_to p old)))
                _ (missing_call repo queue _ _ _)
                λ b.
                  never_bind repo queue
                    (if b.isbn == old.isbn
                      then (λ t. (ok tt, t))
                      else enqueue_enrichment repo queue b.isbn)
                    _ (never_maybe repo queue _ _ (never_enqueue repo queue b.isbn))
                    λ u.
                      never_bind repo queue _ _ (broken_call repo queue _ (repo.get user id))
                        λ c. never_pure repo queue _

    pub delete-IsGuarded : (id : Text) → IsGuarded repo queue who srv (delete repo queue who id srv)
    unfolding delete
    delete-IsGuarded id = guarded repo queue who srv _ λ user. missing_call repo queue _ _ _

    pub cover-IsGuarded : (id : Text) → IsGuarded repo queue who srv (cover repo queue who id srv)
    unfolding cover
    cover-IsGuarded id = guarded repo queue who srv _ λ user.
        never_bind repo queue _ _ (missing_call repo queue _ _ _) λ c. never_pure repo queue _

    pub refresh-IsGuarded :
        (id : Text) → IsGuarded repo queue who srv (refresh repo queue who id srv)
    unfolding refresh
    refresh-IsGuarded id = guarded repo queue who srv _ λ user.
        never_bind repo queue
          (on_store repo queue (missing_or (codes "book not found") (codes "could not fetch book"))
            (repo.get user id))
          _ (missing_call repo queue _ _ _)
          λ b.
            never_bind repo queue
              (returned repo queue (
                if is_empty b.isbn
                then err (http_error 422 (codes "book has no ISBN to enrich"))
                else ok tt))
              _ (never_blank repo queue _ _)
              λ u.
                never_bind repo queue
                  (on_store repo queue (λ _. http_error 500 (codes "could not queue refresh"))
                    (repo.mark_edition_pending b.isbn))
                  _ (broken_call repo queue _ _)
                  λ v.
                    never_bind repo queue (enqueued repo queue b.isbn) _
                      (never_enqueued repo queue _)
                      λ x. never_pure repo queue (record { status = codes "queued"; isbn = b.isbn })

    pub unauthenticated :
        (id : Text) (now : ℕ) (body : BookWrite) (patch : BookPatch)
        → IsGuarded repo queue who srv (create repo queue table id now who body srv)
          × IsGuarded repo queue who srv (list repo queue who srv)
          × IsGuarded repo queue who srv (get repo queue who id srv)
          × IsGuarded repo queue who srv (update repo queue table now who id patch srv)
          × IsGuarded repo queue who srv (delete repo queue who id srv)
          × IsGuarded repo queue who srv (cover repo queue who id srv)
          × IsGuarded repo queue who srv (refresh repo queue who id srv)
    unauthenticated id now body patch = (
      create-IsGuarded id now body,
      list-IsGuarded,
      get-IsGuarded id,
      update-IsGuarded now id patch,
      delete-IsGuarded id,
      cover-IsGuarded id,
      refresh-IsGuarded id,
    )
