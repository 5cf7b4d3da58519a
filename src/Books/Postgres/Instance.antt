-- ===== src/Books/Postgres/Instance.antt =====
-- `var _ Store = (*PostgresStore)(nil)`: the PostgreSQL store as a repository.
use book_guard_api.Books.Repository.{Repository}
use book_guard_api.Books.Postgres.{Database, create, get, list, update, delete}
use book_guard_api.Books.Postgres.Editions.{
  ensure_edition, mark_edition_pending, cover_for_book, pending_enrichment, edition_status,
  save_enrichment, save_cover,
}

-- The clock of `fetched_at`, which nothing reads, stands still.
abbrev pub postgres_repository : Repository
postgres_repository = record {
  State = Database;
  create = create;
  get = get;
  list = list;
  update = update;
  delete = delete;
  ensure_edition = ensure_edition;
  mark_edition_pending = mark_edition_pending;
  cover_for_book = cover_for_book;
  pending_enrichment = pending_enrichment;
  edition_status = edition_status;
  save_enrichment = save_enrichment;
  save_cover = save_cover 0;
}
