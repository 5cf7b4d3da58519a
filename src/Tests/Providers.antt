-- ===== src/Tests/Providers.antt =====
-- The theorems of the two providers, applied to hosts that are always down or always answer.
use book_guard_api.Base.{
  ℕ, suc, ◌+◌, ◌≤◌, ◌≡◌, ◌⊎◌, refl, pos, false, [], ◌∷◌, List, All, map, none, Text, codes,
  is_empty, lookup, ascii_table, to_upper, ascii_upper, byte_length, utf8, utf8_of, trim_space,
  trim_left, is_space, Result, ok, err, arith,
}
use book_guard_api.Books.Isbn.{
  invalid_isbn, canonical_isbn, strip_isbn_separators, isbn_shape, digits_then, is_separator,
}
use book_guard_api.Enrich.Fallback.{fallback_provider}
use book_guard_api.Enrich.Network.{Body, Response, Network, attempts, http_get_with_retry}
use book_guard_api.Enrich.Network.Attempts.{CountsCalls, IsSettled, http_get_with_retry_lem}
use book_guard_api.Enrich.Images.{default_cover_max_bytes}
use book_guard_api.Enrich.OpenLibrary.{
  OlDoc, OlDecoder, OpenLibrary, new_open_library, digits_only, is_isbn13, clean_isbn, pick_from,
  pick_isbn, to_result, results_of, ol_search, open_library_provider,
}
use book_guard_api.Enrich.OpenLibrary.Pick.{first_or, is_ten, pick_isbn_lem}
use book_guard_api.Enrich.OpenLibrary.Results.{IsOffer, ol_search_lem}
use book_guard_api.Enrich.GoogleBooks.{Volumes, new_google_books, google_books_provider}
use book_guard_api.Enrich.Worker.{process}
use book_guard_api.Server.{memory_enrich_store}
use book_guard_api.Server.Covers.{CoversFit, process-CoversFit}
use book_guard_api.Tests.Samples.{dune_isbn, fresh_library}

-- A response of some status; the world counts the exchanges.
abbrev response : ℕ → Response
response status = record {
  status = status;
  content_type = codes "image/png";
  etag = [];
  body = record { bytes = 1 ∷ 2 ∷ []; breaks = none };
}

abbrev network_of : ℕ → Network ℕ
network_of status = record {
  new_request = λ url. none;
  exchange = λ url agent n. (ok (response status), suc n);
  wait = λ ms n. (none, n);
}

abbrev count : ℕ → ℕ
count n = n

network_of-CountsCalls : (status : ℕ) → CountsCalls (network_of status) count
network_of-CountsCalls status = record {
  exchanged = λ url agent n. omega arith;
  waited = λ ms n. refl;
}

gives_up_after_three : (http_get_with_retry (network_of 503) [] [] 0).1 ≡ 3
unfolding http_get_with_retry attempts
gives_up_after_three = refl

http_get_with_retry_lem_example :
    (count (http_get_with_retry (network_of 503) (codes "u") (codes "a") 0).1 ≤ count 0 + 3)
    × IsSettled (http_get_with_retry (network_of 503) (codes "u") (codes "a") 0).0
http_get_with_retry_lem_example =
    http_get_with_retry_lem (network_of 503) count (network_of-CountsCalls 503) (codes "u")
      (codes "a") 0

abbrev candidates : List Text
candidates = codes "0-441-01359-7" ∷ codes "978 0441013593" ∷ []

prefers_thirteen : pick_isbn ascii_table candidates ≡ dune_isbn
unfolding pick_isbn pick_from clean_isbn digits_only to_upper ascii_upper byte_length utf8 utf8_of
prefers_thirteen = refl

pick_isbn_lem_example :
    pick_isbn ascii_table candidates
    ≡ first_or is_isbn13
        (first_or is_ten [] (map (clean_isbn ascii_table) candidates))
        (map (clean_isbn ascii_table) candidates)
pick_isbn_lem_example = pick_isbn_lem ascii_table candidates

-- Ten letters are offered, and refused where a book is created.
offers_ten_letters : pick_isbn ascii_table (codes "ABCDEFGHIJ" ∷ []) ≡ codes "ABCDEFGHIJ"
unfolding pick_isbn pick_from clean_isbn digits_only to_upper ascii_upper byte_length utf8 utf8_of
offers_ten_letters = refl

refuses_ten_letters : canonical_isbn ascii_table (codes "ABCDEFGHIJ") ≡ err invalid_isbn
unfolding canonical_isbn strip_isbn_separators isbn_shape digits_then is_separator to_upper
    ascii_upper
refuses_ten_letters = refl

abbrev dune_doc : OlDoc
dune_doc = record {
  title = codes "Dune";
  author_name = codes "Frank Herbert" ∷ [];
  first_publish_year = pos 1965;
  publisher = codes "Ace" ∷ [];
  isbn = candidates;
}

abbrev decoder : OlDecoder
decoder = record {
  decode_books = λ body. err (codes "no JSON");
  decode_search = λ body. ok (dune_doc ∷ []);
}

abbrev open_library : OpenLibrary
open_library = new_open_library [] []

found_dune :
    ol_search (network_of 200) decoder open_library ascii_table (codes "dune") (pos 0) 0
    ≡ (ok (to_result dune_isbn dune_doc ∷ []), 1)
unfolding ol_search http_get_with_retry attempts results_of pick_isbn pick_from clean_isbn
    digits_only to_upper ascii_upper byte_length utf8 utf8_of trim_space trim_left is_space
found_dune = refl

ol_search_lem_example :
    All (IsOffer ascii_table) (to_result dune_isbn dune_doc ∷ [])
    × (count 1 ≤ count 0 + 3)
    × ((is_empty (trim_space (codes "dune")) ≡ false) ⊎ (◌≡◌ {A = ℕ} 1 0))
ol_search_lem_example =
    ol_search_lem (network_of 200) decoder open_library count (network_of-CountsCalls 200)
      ascii_table (codes "dune") (pos 0) 0 1 (to_result dune_isbn dune_doc ∷ []) found_dune

abbrev no_volumes : Body → Result Text Volumes
no_volumes body = ok (record { total_items = pos 0; items = [] })

fresh_library-CoversFit : CoversFit default_cover_max_bytes fresh_library
unfolding lookup
fresh_library-CoversFit isbn c h = cc

process-CoversFit_example :
    let primary = open_library_provider (network_of 200) decoder (new_open_library [] []) in
    let secondary = google_books_provider (network_of 200) no_volumes (new_google_books [] []) in
    CoversFit default_cover_max_bytes
      (process memory_enrich_store
        (fallback_provider primary secondary)
        60
        dune_isbn
        (fresh_library, 0)).0
process-CoversFit_example =
    process-CoversFit (network_of 200) decoder no_volumes [] [] [] [] 60 dune_isbn fresh_library 0
      fresh_library-CoversFit
