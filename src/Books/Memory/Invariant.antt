-- ===== src/Books/Memory/Invariant.antt =====
-- What every method of internal/books/store_memory.go keeps true of the three maps.
use book_guard_api.Base.{
  ℕ, ◌≡◌, refl, Bool, true, false, List, [], ◌∷◌, Option, some, none, Text, eq_iff, lookup, insert,
  erase, IsDistinct, lookup-insert, lookup-erase, insert-IsDistinct, erase-IsDistinct, arith,
  Option-cases, inl, inr,
}
use book_guard_api.Books.Book.{Book}
use book_guard_api.Books.Memory.{
  MemEdition, MemoryStore, new_memory_store, stamped, create, owned_book, update, delete,
}
use book_guard_api.Books.Memory.Editions.{
  ensure_edition, edition_or, mark_edition_pending, with_metadata, save_enrichment, save_cover,
}
use book_guard_api.Enrich.Provider.{Status, pending, Metadata, Cover}

abbrev pub flagged : Option MemEdition → Bool
flagged none = false
flagged (some e) = e.has_cover

abbrev pub stored : Option Cover → Bool
stored none = false
stored (some c) = true

-- One entry to a key, each book under its own id, and `HasCover` exactly where there is a cover.
pub record IsValid (s : MemoryStore) : Type 0 where
  pub one_book : IsDistinct s.books
  pub one_edition : IsDistinct s.editions
  pub keyed : (id : Text) (b : Book) → lookup id s.books ≡ some b → b.id ≡ id
  pub covered : (isbn : Text) → flagged (lookup isbn s.editions) ≡ stored (lookup isbn s.covers)

-- A call that changes the store. `Get`, `List` and the other readers leave it alone.
pub data Call : Type 0 where
  creates : Text → ℕ → Text → Book → Call
  updates : ℕ → Text → Book → Call
  deletes : Text → Text → Call
  ensures : Text → Call
  marks : Text → Call
  enriches : ℕ → Text → Option Metadata → Status → Call
  covers : Text → Cover → Call

unfoldable pub step : Call → MemoryStore → MemoryStore
step (creates id now user b) s = (create id now user b s).1
step (updates now user b) s = (update now user b s).1
step (deletes user id) s = (delete user id s).1
step (ensures isbn) s = ensure_edition isbn s
step (marks isbn) s = mark_edition_pending isbn s
step (enriches now isbn m status) s = save_enrichment now isbn m status s
step (covers isbn c) s = save_cover isbn c s

unfoldable pub run : List Call → MemoryStore → MemoryStore
run [] s = s
run (c ∷ cs) s = run cs (step c s)

module _ (s : MemoryStore) (v : IsValid s) where
  -- A book stored under its own id.
  put_book : (b : Book) → IsValid (record s { books = insert b.id b s.books })
  put_book b = record {
    one_book = insert-IsDistinct b.id b s.books v.one_book;
    one_edition = v.one_edition;
    keyed =
        λ id c h. ground (arith, lookup-insert b.id id b s.books, eq_iff b.id id, v.keyed id c, h);
    covered = v.covered;
  }

  take_book : (k : Text) → IsValid (record s { books = erase k s.books })
  take_book k = record {
    one_book = erase-IsDistinct k s.books v.one_book;
    one_edition = v.one_edition;
    keyed = λ id c h. ground (arith, lookup-erase k id s.books, v.keyed id c, h);
    covered = v.covered;
  }

  -- An edition written with the flag that it had.
  put_edition :
      (k : Text) (e : MemEdition)
      → e.has_cover ≡ flagged (lookup k s.editions)
      → IsValid (record s { editions = insert k e s.editions })
  put_edition k e same = record {
    one_book = v.one_book;
    one_edition = insert-IsDistinct k e s.editions v.one_edition;
    keyed = v.keyed;
    covered = λ isbn.
        ground
          (arith, lookup-insert k isbn e s.editions, eq_iff k isbn, v.covered isbn, v.covered k);
  }

  put_cover :
      (k : Text) (e : MemEdition) (c : Cover)
      → e.has_cover ≡ true
      → IsValid (record s { covers = insert k c s.covers; editions = insert k e s.editions })
  put_cover k e c set = record {
    one_book = v.one_book;
    one_edition = insert-IsDistinct k e s.editions v.one_edition;
    keyed = v.keyed;
    covered = λ isbn.
        ground (
          arith,
          lookup-insert k isbn e s.editions,
          lookup-insert k isbn c s.covers,
          v.covered isbn,
        );
  }

  update-IsValid : (now : ℕ) (user : Text) (b : Book) → IsValid (update now user b s).1
  unfolding update
  update-IsValid now user b = elim (Option-cases (owned_book user b.id s)) [
    | inl missing ↦ rw (missing, update) v
    | inr (old, held) ↦ rw (held, update) (put_book _)
  ]

  delete-IsValid : (user id : Text) → IsValid (delete user id s).1
  unfolding delete
  delete-IsValid user id = elim (Option-cases (owned_book user id s)) [
    | inl missing ↦ rw (missing, delete) v
    | inr (old, held) ↦ rw (held, delete) (take_book id)
  ]

  ensure_edition-IsValid : (isbn : Text) → IsValid (ensure_edition isbn s)
  unfolding ensure_edition
  ensure_edition-IsValid isbn = elim (Option-cases (lookup isbn s.editions)) [
    | inl missing ↦ rw (missing, ensure_edition) (put_edition isbn _ (rw missing))
    | inr (e, held) ↦ rw (held, ensure_edition) v
  ]

  with_metadata-has_cover :
      (now : ℕ) (m : Option Metadata) (status status' : Status) (e : Option MemEdition)
      → (with_metadata now m (record (edition_or status e) { status = status' })).has_cover
        ≡ flagged e
  with_metadata-has_cover now none status status' none = refl
  with_metadata-has_cover now none status status' (some e) = refl
  with_metadata-has_cover now (some m) status status' none = refl
  with_metadata-has_cover now (some m) status status' (some e) = refl

  -- Every call keeps the store well formed.
  pub step-IsValid : (c : Call) → IsValid (step c s)
  unfolding step create stamped mark_edition_pending save_enrichment save_cover
  step-IsValid (creates id now user b) = put_book (stamped id user now b)
  step-IsValid (updates now user b) = update-IsValid now user b
  step-IsValid (deletes user id) = delete-IsValid user id
  step-IsValid (ensures isbn) = ensure_edition-IsValid isbn
  step-IsValid (marks isbn) =
      put_edition isbn _ (with_metadata-has_cover 0 none pending pending (lookup isbn s.editions))
  step-IsValid (enriches now isbn m status) =
      put_edition isbn _ (with_metadata-has_cover now m status status (lookup isbn s.editions))
  step-IsValid (covers isbn c) = put_cover isbn _ c refl

pub new-IsValid : IsValid new_memory_store
unfolding lookup
new-IsValid = record {
  one_book = tt;
  one_edition = tt;
  keyed = λ id b h. cc;
  covered = λ isbn. refl;
}

run-IsValid_from : (cs : List Call) (s : MemoryStore) → IsValid s → IsValid (run cs s)
unfolding run
run-IsValid_from [] s v = v
run-IsValid_from (c ∷ cs) s v = run-IsValid_from cs (step c s) (step-IsValid s v c)

-- After any history of calls on a new store no key is stored twice, every book stands under its
-- own id, and an edition is flagged to have a cover exactly if a cover of its ISBN is stored.
pub run-IsValid : (cs : List Call) → IsValid (run cs new_memory_store)
run-IsValid cs = run-IsValid_from cs new_memory_store new-IsValid
