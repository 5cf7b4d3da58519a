-- ===== src/Tests/Store.antt =====
-- The theorems of Books/Memory, applied to the sample library.
use book_guard_api.Base.{
  ◌≡◌, ◌≢◌, ◌↔◌, ◌⊎◌, refl, ap, Bool, true, false, [], ◌∷◌, length, keep, In, All, some, none, Text,
  codes, ◌==◌, lookup, arith, pos, ltb_ℤ, text_lt, IsDistinct, ok, err,
}
use book_guard_api.Books.Book.{Book}
use book_guard_api.Books.Spec.{place}
use book_guard_api.Books.Memory.{
  MemoryStore, MemEdition, not_found, new_memory_store, owned_book, create, get, list, update,
  delete,
}
use book_guard_api.Books.Memory.Editions.{pending_enrichment}
use book_guard_api.Books.Memory.Refines.{
  shelves, shelves-create, shelves-update, shelves-delete, not_found-unchanged,
}
use book_guard_api.Books.Memory.Listing.{IsOrdered, list_lem}
use book_guard_api.Books.Memory.Pending.{Waiting, Waiting-pending_enrichment}
use book_guard_api.Books.Memory.Invariant.{IsValid, run, run-IsValid}
use book_guard_api.Tests.Samples.{dune_isbn, dune, waiting_edition, library, not_bens, history}

abbrev two_waiting : MemoryStore
two_waiting = record {
  books = [];
  editions = (codes "9780441013593", waiting_edition) ∷ (codes "080442957X", waiting_edition) ∷ [];
  covers = [];
}

-- The same editions, met in the other order.
abbrev two_waiting' : MemoryStore
two_waiting' = record {
  books = [];
  editions = (codes "080442957X", waiting_edition) ∷ (codes "9780441013593", waiting_edition) ∷ [];
  covers = [];
}

held_dune : owned_book (codes "ada") (codes "b1") library ≡ some dune
unfolding owned_book lookup ◌==◌
held_dune = refl

free_id : lookup (codes "b2") library.books ≡ none
unfolding lookup ◌==◌
free_id = refl

two_waiting-IsDistinct : IsDistinct two_waiting.editions × IsDistinct two_waiting'.editions
unfolding lookup ◌==◌
two_waiting-IsDistinct = ((refl, (refl, tt)), (refl, (refl, tt)))

shelves-create_example :
    shelves (create (codes "b2") 20 (codes "ben") dune library).1
    ≡ place
        (codes "ben")
        (codes "b2")
        (some (create (codes "b2") 20 (codes "ben") dune library).0)
        (shelves library)
shelves-create_example = shelves-create library (codes "ben") (codes "b2") 20 dune free_id

shelves-update_example :
    let b = record dune { user_id = codes "ada"; created_at = 10; updated_at = 40 } in
    ((update 40 (codes "ada") dune library).0 ≡ ok b)
    × (shelves (update 40 (codes "ada") dune library).1
        ≡ place (codes "ada") (codes "b1") (some b) (shelves library))
shelves-update_example = shelves-update library (codes "ada") 40 dune held_dune

shelves-delete_example :
    ((delete (codes "ada") (codes "b1") library).0 ≡ ok tt)
    × (shelves (delete (codes "ada") (codes "b1") library).1
        ≡ place (codes "ada") (codes "b1") none (shelves library))
shelves-delete_example = shelves-delete library (codes "ada") (codes "b1") held_dune

not_found-unchanged_example :
    (get (codes "ben") (codes "b1") library ≡ err not_found)
    × (update 40 (codes "ben") dune library ≡ (err not_found, library))
    × (delete (codes "ben") (codes "b1") library ≡ (err not_found, library))
not_found-unchanged_example = not_found-unchanged library (codes "ben") 40 dune not_bens

list_lem_example :
    ((b : Book)
      → In b (list (codes "ada") library) ↔ ((id : Text) × (get (codes "ada") id library ≡ ok b)))
    × IsOrdered (list (codes "ada") library)
    × (length (list (codes "ada") library)
        ≡ length (keep (λ entry. entry.1.user_id == codes "ada") library.books))
unfolding lookup
list_lem_example = list_lem (codes "ada") library (refl, tt)

dune_waits : Waiting two_waiting.editions dune_isbn
unfolding lookup ◌==◌
dune_waits = (waiting_edition, refl, refl)

Waiting-pending_enrichment_example :
    let found = pending_enrichment (pos 1) two_waiting in
    In dune_isbn found
    ⊎ ((ltb_ℤ (pos 0) (pos 1) ≡ true)
        × (length found ≡ 1)
        × All (λ t. text_lt t dune_isbn ≡ true) found)
Waiting-pending_enrichment_example =
    Waiting-pending_enrichment (pos 1) two_waiting two_waiting-IsDistinct.0 dune_isbn dune_waits

swap :
    (a b isbn : Text) (e : MemEdition)
    → lookup isbn ((a, e) ∷ (b, e) ∷ []) ≡ lookup isbn ((b, e) ∷ (a, e) ∷ [])
unfolding lookup
swap a b isbn e = ground arith

either_order : (isbn : Text) → lookup isbn two_waiting.editions ≡ lookup isbn two_waiting'.editions
either_order isbn = swap (codes "9780441013593") (codes "080442957X") isbn waiting_edition

run-IsValid_example : IsValid (run history new_memory_store)
run-IsValid_example = run-IsValid history

abbrev is_dune : Text → Bool
is_dune isbn = isbn == dune_isbn

not_dune : codes "080442957X" ≢ dune_isbn
unfolding ◌==◌
not_dune h = let e : false ≡ true = ap is_dune h in absurd (cc e)
