-- ===== src/Tests/Search.antt =====
-- The theorems of Search, applied to a searcher that counts its calls.
use Prim.Native.Nat.{zero}
use book_guard_api.Base.{
  ℕ, suc, ◌≤◌, ◌≡◌, ◌≢◌, ◌⊎◌, refl, [], ◌∷◌, ◌++◌, map, some, codes, length, pos, arith, lookup,
  ascii_table, to_lower, ascii_lower, fields, fields_from, is_space, join, itoa, digits_on,
  trim_space, trim_left, ok, err,
}
use book_guard_api.Http.{http_error}
use book_guard_api.Enrich.Provider.{SearchResult}
use book_guard_api.Search.{
  Clock, Searcher, deadline_exceeded, cache_key, cached, cache_max_size, to_hit, search_editions,
}
use book_guard_api.Search.Bounds.{put_all, put_all_fits}
use book_guard_api.Search.Answers.{search_editions-again, search_editions-retry}
use book_guard_api.Tests.Samples.{ada, ben, dune_isbn}

abbrev dune_result : SearchResult
dune_result = record {
  isbn = dune_isbn;
  title = codes "Dune";
  author = codes "Frank Herbert";
  publisher = codes "Ace";
  year = pos 1965;
}

abbrev counting : Searcher ℕ
counting = λ query limit calls. (ok (dune_result ∷ []), suc calls)

abbrev at_ten : Clock
at_ten = record { looked_up = 10; swept = 20; stored = 30 }

abbrev at_a_minute : Clock
at_a_minute = record { looked_up = 60_000_000_000; swept = 60_000_000_001; stored = 60_000_000_002 }

folds_case_and_spaces :
    cache_key ascii_table (codes "Dune  herbert") (pos 10)
    ≡ codes "dune herbert" ++ (0 ∷ codes "10")
unfolding cache_key fields fields_from is_space join to_lower ascii_lower itoa digits_on
folds_case_and_spaces = refl

put_all_fits_example :
    length (
      put_all ascii_table
        (record {
          now = 5;
          stored_at = 6;
          query = codes "dune";
          limit = pos 10;
          hits = map to_hit (dune_result ∷ []);
        }
          ∷ [])
        [])
    ≤ cache_max_size
put_all_fits_example = put_all_fits ascii_table (
    record {
      now = 5;
      stored_at = 6;
      query = codes "dune";
      limit = pos 10;
      hits = map to_hit (dune_result ∷ []);
    }
    ∷ [])

-- Ben asks in other words and gets what Ada got; the searcher has been called once.
search_editions-again_example :
    let (answer, (c, calls)) =
      search_editions ascii_table at_ten
        (some counting)
        (some ada)
        (codes "Dune ")
        (pos 10)
        ([], 0) in
    (answer ≡ ok (map to_hit (dune_result ∷ [])))
    × (calls ≡ 1)
    × (search_editions ascii_table at_a_minute
          (some counting)
          (some ben)
          (codes "dune")
          (pos 10)
          (c, calls)
        ≡ (answer, (c, calls)))
unfolding cached lookup cache_key fields fields_from is_space join to_lower ascii_lower trim_space
    trim_left
search_editions-again_example =
    search_editions-again ascii_table counting (some ada) refl at_ten at_a_minute (some ben)
      (codes "Dune ") (codes "dune") (pos 10) (pos 10) [] 0 1 (dune_result ∷ []) refl refl refl refl
      (omega arith)

-- The first call times out, and the next one is answered from upstream.
abbrev slow_start : Searcher ℕ
slow_start query limit zero = (err deadline_exceeded, 1)
slow_start query limit (suc n) = (ok (dune_result ∷ []), suc (suc n))

search_editions-retry_example :
    let (answer, (c, calls)) =
      search_editions ascii_table at_ten
        (some slow_start)
        (some ada)
        (codes "Dune ")
        (pos 10)
        ([], 0) in
    let (answer', (c', calls')) =
      search_editions ascii_table at_a_minute
        (some slow_start)
        (some ben)
        (codes "dune")
        (pos 10)
        (c, calls) in
    (((answer ≡ err (http_error 504 (codes "search timed out")))
        × (deadline_exceeded ≡ deadline_exceeded))
      ⊎ ((answer ≡ err (http_error 502 (codes "search provider unavailable")))
          × (deadline_exceeded ≢ deadline_exceeded)))
    × (answer' ≡ ok (map to_hit (dune_result ∷ [])))
    × (calls' ≡ 2)
unfolding cached lookup cache_key fields fields_from is_space join to_lower ascii_lower trim_space
    trim_left
search_editions-retry_example =
    search_editions-retry ascii_table slow_start (some ada) refl at_ten at_a_minute (some ben)
      (codes "Dune ") (codes "dune") (pos 10) (pos 10) [] 0 1 2 deadline_exceeded (dune_result ∷ [])
      refl refl refl refl (omega arith) refl
