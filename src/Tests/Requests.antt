-- ===== src/Tests/Requests.antt =====
-- The theorems of Books/Requests and Books/Handlers, applied to the sample library.
use book_guard_api.Base.{
  ◌≡◌, ◌≢◌, refl, ap, Bool, ◌⊎◌, true, false, [], none, some, Text, codes, ◌==◌, lookup, erase,
  to_upper, ascii_upper, ascii_table, Result, ok, err,
}
use book_guard_api.Http.{HttpError, http_error}
use book_guard_api.Enrich.Provider.{Cover}
use book_guard_api.Books.Book.{Book}
use book_guard_api.Books.Isbn.{
  is_separator, strip_isbn_separators, digits_then, isbn_shape, canonical_isbn,
}
use book_guard_api.Books.Memory
use book_guard_api.Books.Memory.{
  MemoryStore, StoreError, broken, new_memory_store, owned_book, apply_edition, stamped,
}
use book_guard_api.Books.Memory.Refines.{shelves}
use book_guard_api.Books.Memory.Invariant.{IsValid}
use book_guard_api.Books.Memory.Instance.{memory_repository}
use book_guard_api.Books.Handlers.{
  subject_of, isbn_from_input, set_cover_url, create, get, update, delete, cover, refresh,
}
use book_guard_api.Books.Requests.Hidden.{hidden_book}
use book_guard_api.Auth.{Identity}
use book_guard_api.Books.Requests.{MemoryServer, serve, posts, deletes}
use book_guard_api.Books.Requests.Create.{create_lem, posted, store_after}
use book_guard_api.Books.Requests.Update
use book_guard_api.Books.Requests.Update.{update_lem, patched, edited}
use book_guard_api.Books.Requests.Names.{patch_freezes_title}
use book_guard_api.Books.Requests.Covers.{cover-get}
use book_guard_api.Books.Requests.Ghosts.{HasNoGhosts}
use book_guard_api.Books.Requests.History.{start, requested, serve-shelves, Reaches-HasNoGhosts}
use book_guard_api.Server.{noop_enqueuer}
use book_guard_api.Tests.Samples.{
  ada, ben, dune_isbn, dune_body, dune, dune_edition, reading_patch, library, library-IsValid,
  not_bens,
}

abbrev library_server : MemoryServer noop_enqueuer ascii_table
library_server = record { store = library; jobs = tt }

abbrev empty_server : MemoryServer noop_enqueuer ascii_table
empty_server = record { store = new_memory_store; jobs = tt }

known_ada : subject_of (some ada) ≡ ok (codes "ada")
known_ada = refl

abbrev is_ada : Result HttpError Text → Bool
is_ada (ok user) = user == codes "ada"
is_ada (err e) = false

not_ada : subject_of (some ben) ≢ ok (codes "ada")
unfolding ◌==◌
not_ada h = let e : false ≡ true = ap is_ada h in absurd (cc e)

canonical_dune : isbn_from_input ascii_table dune_body.isbn ≡ ok dune_isbn
unfolding isbn_from_input canonical_isbn isbn_shape digits_then strip_isbn_separators is_separator
    to_upper ascii_upper
canonical_dune = refl

held_dune : owned_book (codes "ada") (codes "b1") library ≡ some dune
unfolding owned_book lookup ◌==◌
held_dune = refl

-- A stranger's delete does nothing, the owner's takes the book away.
delete_of_stranger :
    delete memory_repository noop_enqueuer (some ben) (codes "b1") library_server
    ≡ (err (http_error 404 (codes "book not found")), library_server)
unfolding delete Memory.delete owned_book lookup ◌==◌
delete_of_stranger = refl

delete_of_owner :
    (delete memory_repository noop_enqueuer (some ada) (codes "b1") library_server).1.store.books
    ≡ []
unfolding delete Memory.delete owned_book lookup erase ◌==◌
delete_of_owner = refl

serve-shelves_example :
    shelves
      (serve noop_enqueuer ascii_table (some ben) (deletes (codes "b1")) library_server).store
      (codes "ada")
    ≡ shelves library (codes "ada")
serve-shelves_example =
    serve-shelves noop_enqueuer ascii_table (some ben) (codes "ada") (deletes (codes "b1"))
      library_server library-IsValid tt not_ada

create_lem_example :
    create memory_repository noop_enqueuer ascii_table
      (codes "b2")
      20
      (some ada)
      dune_body
      library_server
    ≡ (
      ok (
          set_cover_url (
            apply_edition
              (store_after noop_enqueuer ascii_table library_server
                (codes "b2")
                20
                (codes "ada")
                dune_isbn
                dune_body)
              (posted noop_enqueuer ascii_table library_server
                (codes "b2")
                20
                (codes "ada")
                dune_isbn
                dune_body))),
      record {
        store =
            store_after noop_enqueuer ascii_table library_server
              (codes "b2")
              20
              (codes "ada")
              dune_isbn
              dune_body;
        jobs = tt;
      },
    )
create_lem_example =
    create_lem noop_enqueuer ascii_table library_server (some ada) (codes "ada") (codes "b2")
      dune_isbn 20 dune_body known_ada canonical_dune

update_lem_example :
    update memory_repository noop_enqueuer ascii_table 30
      (some ada)
      (codes "b1")
      reading_patch
      library_server
    ≡ (
      ok (
          set_cover_url (
            apply_edition
              (Update.store_after noop_enqueuer ascii_table library_server 30
                (codes "ada")
                dune
                reading_patch)
              (patched noop_enqueuer ascii_table library_server 30
                (codes "ada")
                dune
                reading_patch))),
      record {
        store =
            Update.store_after noop_enqueuer ascii_table library_server 30
              (codes "ada")
              dune
              reading_patch;
        jobs = tt;
      },
    )
update_lem_example =
    update_lem noop_enqueuer ascii_table library_server (some ada) (codes "ada") 30 dune
      reading_patch reading_patch known_ada held_dune refl

Reaches-HasNoGhosts_example :
    let srv =
      serve noop_enqueuer ascii_table (some ada) (posts (codes "b1") 10 dune_body) empty_server in
    IsValid srv.store × HasNoGhosts srv.store
unfolding lookup
Reaches-HasNoGhosts_example =
    Reaches-HasNoGhosts noop_enqueuer ascii_table {first = empty_server} refl
      (requested (some ada) (posts (codes "b1") 10 dune_body) refl start)

found_edition : lookup dune_isbn library.editions ≡ some dune_edition
unfolding lookup ◌==◌
found_edition = refl

patch_freezes_title_example :
    (b : Book) × (owned_book
        (codes "ada")
        (codes "b1")
        (update memory_repository noop_enqueuer ascii_table 30
          (some ada)
          (codes "b1")
          reading_patch
          library_server).1.store
      ≡ some b)
    × ((later : MemoryStore) → (apply_edition later b).title ≡ codes "Dune")
patch_freezes_title_example =
    patch_freezes_title noop_enqueuer ascii_table library_server (some ada) (codes "ada") 30 dune
      reading_patch reading_patch dune_edition known_ada held_dune refl refl refl refl found_edition
      refl

cover-get_example :
    ((c : Cover) × ((get memory_repository noop_enqueuer (some ada) (codes "b1") library_server).0
        ≡ ok (record (apply_edition library dune) { cover_url = codes "/books/b1/cover" }))
      × ((cover memory_repository noop_enqueuer (some ada) (codes "b1") library_server).0
          ≡ ok (record {
            content_type = c.content_type;
            cache_control = codes "private, max-age=86400";
            etag = c.etag;
            body = c.bytes;
          }))
      × (lookup dune_isbn library.covers ≡ some c))
    ⊎ (((get memory_repository noop_enqueuer (some ada) (codes "b1") library_server).0
          ≡ ok (record (apply_edition library dune) { cover_url = [] }))
        × ((cover memory_repository noop_enqueuer (some ada) (codes "b1") library_server).0
            ≡ err (http_error 404 (codes "cover not found")))
        × (lookup dune_isbn library.covers ≡ none))
cover-get_example =
    cover-get noop_enqueuer ascii_table library_server (some ada) (codes "ada") (codes "b1") dune
      library-IsValid known_ada held_dune refl refl

-- An identity with an empty subject.
abbrev nameless : Identity
nameless = record ada { subject = [] }

hidden_book_example :
    let srv = library_server in
    let who = some ben in
    let missing = http_error 404 (codes "book not found") in
    (get memory_repository noop_enqueuer who (codes "b1") srv ≡ (err missing, srv))
    × (update memory_repository noop_enqueuer ascii_table 30 who (codes "b1") reading_patch srv
        ≡ (err missing, srv))
    × (delete memory_repository noop_enqueuer who (codes "b1") srv ≡ (err missing, srv))
    × (cover memory_repository noop_enqueuer who (codes "b1") srv
        ≡ (err (http_error 404 (codes "cover not found")), srv))
    × (refresh memory_repository noop_enqueuer who (codes "b1") srv ≡ (err missing, srv))
hidden_book_example =
    hidden_book noop_enqueuer ascii_table library_server (some ben) (codes "ben") (codes "b1") 30
      reading_patch refl not_bens
