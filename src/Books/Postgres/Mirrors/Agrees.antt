-- ===== src/Books/Postgres/Mirrors/Agrees.antt =====
-- Everything that the reads of internal/books/store_postgres.go and of store_memory.go can show.
use book_guard_api.Base.{ℕ, suc, ◌≡◌, ap, ◌↔◌, List, In, Text, pos, ok}
use book_guard_api.Books.Book.{Book}
use book_guard_api.Books.Memory
use book_guard_api.Books.Memory.{MemoryStore}
use book_guard_api.Books.Memory.Editions
use book_guard_api.Books.Memory.Invariant.{IsValid}
use book_guard_api.Books.Memory.Listing.{IsOrdered}
use book_guard_api.Books.Postgres
use book_guard_api.Books.Postgres.{Tables, Database}
use book_guard_api.Books.Postgres.Editions as PostgresEditions
use book_guard_api.Books.Postgres.Mirrors.{healthy, Mirrors}
use book_guard_api.Books.Postgres.Mirrors.Reads.{
  get-Mirrors, edition_status-Mirrors, cover_for_book-Mirrors, without_source,
}
use book_guard_api.Books.Postgres.Mirrors.Lists.{pending_enrichment-Mirrors, list-Mirrors}

-- The reads answer the same: a list has the same books, oldest first (books of one time may stand
-- in another order), and a cover may lack the address that it came from.
pub record Agrees (db : Database) (s : MemoryStore) : Type 0 where
  pub same_get : (user id : Text) → (Postgres.get user id db).0 ≡ Memory.get user id s
  pub same_list :
      (user : Text)
      → (bs : List Book) × ((Postgres.list user db).0 ≡ ok bs)
        × IsOrdered bs
        × ((b : Book) → In b bs ↔ In b (Memory.list user s))
  pub same_status :
      (isbn : Text)
      → (PostgresEditions.edition_status isbn db).0 ≡ ok (Editions.edition_status isbn s)
  pub same_pending :
      (n : ℕ)
      → (PostgresEditions.pending_enrichment (pos (suc n)) db).0
        ≡ ok (Editions.pending_enrichment (pos (suc n)) s)
  pub same_cover :
      (user id : Text)
      → (PostgresEditions.cover_for_book user id db).0
        ≡ without_source (Editions.cover_for_book user id s)

pub Mirrors-Agrees : (t : Tables) (s : MemoryStore) → Mirrors t s → IsValid s → Agrees (healthy t) s
Mirrors-Agrees t s m v = record {
  same_get = λ user id. ap (λ r. r.0) (get-Mirrors t s m user id);
  same_list = λ user.
      let (bs, listed, ordered, same) = list-Mirrors t s m user v.one_book in
      (bs, ap (λ r. r.0) listed, ordered, same);
  same_status = λ isbn. ap (λ r. r.0) (edition_status-Mirrors t s m isbn);
  same_pending = λ n. ap (λ r. r.0) (pending_enrichment-Mirrors t s m n v.one_edition);
  same_cover = λ user id. ap (λ r. r.0) (cover_for_book-Mirrors t s m user id);
}
