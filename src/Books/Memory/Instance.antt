-- ===== src/Books/Memory/Instance.antt =====
-- `var _ enrich.Store = (*MemoryStore)(nil)`: the memory store as a repository. It never fails.
use book_guard_api.Base.{ok}
use book_guard_api.Books.Repository.{Repository}
use book_guard_api.Books.Memory.{MemoryStore, create, get, list, update, delete}
use book_guard_api.Books.Memory.Editions.{
  ensure_edition, mark_edition_pending, cover_for_book, pending_enrichment, edition_status,
  save_enrichment, save_cover,
}

abbrev pub memory_repository : Repository
memory_repository = record {
  State = MemoryStore;
  create = λ id now user b s. let (b', s') = create id now user b s in (ok b', s');
  get = λ user id s. (get user id s, s);
  list = λ user s. (ok (list user s), s);
  update = update;
  delete = delete;
  ensure_edition = λ isbn s. (ok tt, ensure_edition isbn s);
  mark_edition_pending = λ isbn s. (ok tt, mark_edition_pending isbn s);
  cover_for_book = λ user id s. (cover_for_book user id s, s);
  pending_enrichment = λ limit s. (ok (pending_enrichment limit s), s);
  edition_status = λ isbn s. (ok (edition_status isbn s), s);
  save_enrichment = λ now isbn m status s. (ok tt, save_enrichment now isbn m status s);
  save_cover = λ isbn c s. (ok tt, save_cover isbn c s);
}
