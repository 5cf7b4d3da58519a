-- ===== src/Books/Memory.antt =====
-- internal/books/store_memory.go, the books; its child Editions has the rest. A method takes the store and returns the store that it leaves.
-- The mutex makes each method one step. The maps hold pointers, but no caller writes through one
-- that it has handed in or got back, so they are values here. A new id and the time are arguments.
pub mod Editions
pub mod Refines
pub mod Reads
pub mod Listing
pub mod Pending
pub mod Names
pub mod Invariant
pub mod Instance
use book_guard_api.Base.{
  ℕ, suc, Bool, true, false, not, ◌&&◌, ◌||◌, List, [], ◌∷◌, map, Option, some, none, Text, ◌==◌,
  text_lt, is_empty, Map, lookup, insert, erase, ltb, leb_ℤ, ltb_ℤ, ℤ, pos, negsuc, take, length,
  if◌then◌else◌, Result, ok, err,
}
use book_guard_api.Books.Book.{Book, status_to_read, apply_canonical_names}
use book_guard_api.Books.Status.{enrichment_status_for}
use book_guard_api.Enrich.Provider.{Status, pending, enriched, failed, status_text, Metadata, Cover}

pub data StoreError : Type 0 where
  not_found : StoreError
  broken : Text → StoreError

pub record MemEdition : Type 0 where
  pub title : Text
  pub author : Text
  pub description : Text
  pub publisher : Text
  pub published_date : Text
  pub page_count : ℤ
  pub status : Status
  pub enriched_at : Option ℕ
  pub has_cover : Bool

pub record MemoryStore : Type 0 where
  pub books : Map Book
  pub editions : Map MemEdition
  pub covers : Map Cover

abbrev pub new_memory_store : MemoryStore
new_memory_store = record { books = []; editions = []; covers = [] }

-- `&memEdition{Status: status}`.
abbrev pub fresh_edition : Status → MemEdition
fresh_edition status = record {
  title = [];
  author = [];
  description = [];
  publisher = [];
  published_date = [];
  page_count = pos 0;
  status = status;
  enriched_at = none;
  has_cover = false;
}

-- The book as `Create` completes it.
unfoldable pub stamped : Text → Text → ℕ → Book → Book
stamped id user now b = record b {
  id = id;
  user_id = user;
  status = if is_empty b.status then status_to_read else b.status;
  created_at = now;
  updated_at = now;
}

unfoldable pub create : Text → ℕ → Text → Book → MemoryStore → Book × MemoryStore
create id now user b s =
    let b' = stamped id user now b in (b', record s { books = insert id b' s.books })

abbrev pub owned_by : Text → Option Book → Option Book
owned_by user none = none
owned_by user (some b) = if b.user_id == user then some b else none

unfoldable pub owned_book : Text → Text → MemoryStore → Option Book
owned_book user id s = owned_by user (lookup id s.books)

abbrev pub merge_edition : Book → Option MemEdition → Book
merge_edition b (some e) = record (apply_canonical_names b e.title e.author) {
  description = e.description;
  publisher = e.publisher;
  published_date = e.published_date;
  page_count = e.page_count;
  enrichment_status = status_text e.status;
  enriched_at = e.enriched_at;
  has_cover = e.has_cover;
}
merge_edition b none = record b {
  description = [];
  publisher = [];
  published_date = [];
  page_count = pos 0;
  enriched_at = none;
  has_cover = false;
  enrichment_status = enrichment_status_for b.isbn none;
}

unfoldable pub apply_edition : MemoryStore → Book → Book
apply_edition s b = merge_edition b (if is_empty b.isbn then none else lookup b.isbn s.editions)

unfoldable pub get : Text → Text → MemoryStore → Result StoreError Book
get user id s = elim (owned_book user id s) [
  | none ↦ err not_found
  | some b ↦ ok (apply_edition s b)
]

-- `sort.Slice` by `CreatedAt`.
unfoldable pub insert_by_created : Book → List Book → List Book
insert_by_created b [] = b ∷ []
insert_by_created b (c ∷ cs) =
    if ltb c.created_at b.created_at then c ∷ insert_by_created b cs else b ∷ c ∷ cs

unfoldable pub sort_by_created : List Book → List Book
sort_by_created [] = []
sort_by_created (b ∷ bs) = insert_by_created b (sort_by_created bs)

unfoldable pub collect_owned : Text → MemoryStore → Map Book → List Book
collect_owned user s [] = []
collect_owned user s ((id, b) ∷ m) =
    if b.user_id == user then apply_edition s b ∷ collect_owned user s m else collect_owned user s m

unfoldable pub list : Text → MemoryStore → List Book
list user s = sort_by_created (collect_owned user s s.books)

unfoldable pub update : ℕ → Text → Book → MemoryStore → Result StoreError Book × MemoryStore
update now user b s = elim (owned_book user b.id s) [
  | none ↦ (err not_found, s)
  | some existing ↦
      let b' = record b { user_id = user; created_at = existing.created_at; updated_at = now } in
      (ok b', record s { books = insert b.id b' s.books })
]

unfoldable pub delete : Text → Text → MemoryStore → Result StoreError (Unit {0}) × MemoryStore
delete user id s = elim (owned_book user id s) [
  | none ↦ (err not_found, s)
  | some b ↦ (ok tt, record s { books = erase id s.books })
]
