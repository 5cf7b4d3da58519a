-- ===== src/Search.antt =====
-- internal/search/handlers.go: the cache of results and the search route, over any searcher. The
-- readings of the clock are arguments; the deadline of the upstream call is the searcher's affair.
pub mod Eviction
pub mod Bounds
pub mod Answers
use book_guard_api.Base.{
  ℕ, ℤ, ◌+◌, Bool, true, false, not, ◌&&◌, ◌||◌, List, [], ◌∷◌, ◌++◌, map, Option, none, some, Text,
  codes, is_empty, Map, lookup, insert, erase, ltb, leb, nat_eq, length, fields, join, trim_space,
  itoa, CaseTable, to_lower, if◌then◌else◌, Result, ok, err, Action,
}
use book_guard_api.Http.{HttpError, http_error, unauthorized}
use book_guard_api.Auth.{Identity}
use book_guard_api.Enrich.Provider.{SearchResult}

pub record SearchHit : Type 0 where
  pub isbn : Text
  pub title : Text
  pub author : Text
  pub year : ℤ
  pub publisher : Text

abbrev pub cache_ttl : ℕ
cache_ttl = 60_000_000_000

abbrev pub cache_max_size : ℕ
cache_max_size = 256

-- Times are nanoseconds since the zero time of Go's `time` package.
pub record CacheEntry : Type 0 where
  pub hits : List SearchHit
  pub expires_at : ℕ

abbrev pub Cache : Type 0
Cache = Map CacheEntry

unfoldable pub cache_key : CaseTable → Text → ℤ → Text
cache_key table query limit =
    map (to_lower table) (join (codes " ") (fields query)) ++ (0 ∷ itoa limit)

abbrev pub is_expired : ℕ → CacheEntry → Bool
is_expired now e = ltb e.expires_at now

abbrev pub live_hits : ℕ → Option CacheEntry → Option (List SearchHit)
live_hits now none = none
live_hits now (some e) = if is_expired now e then none else some e.hits

-- The hits, where the Boolean of the Go method is true.
unfoldable pub cached : CaseTable → ℕ → Text → ℤ → Cache → Option (List SearchHit)
cached table now query limit c = live_hits now (lookup (cache_key table query limit) c)

-- The loop of `put`, what it leaves and what it remembers: `oldestKey` and `oldestAt`.
unfoldable pub drop_expired : ℕ → Cache → Cache
drop_expired now [] = []
drop_expired now ((key, e) ∷ c) =
    if is_expired now e then drop_expired now c else (key, e) ∷ drop_expired now c

abbrev pub older : Text → CacheEntry → Text × ℕ → Text × ℕ
older key e (oldest_key, oldest_at) =
    if nat_eq oldest_at 0 || ltb e.expires_at oldest_at
    then (key, e.expires_at)
    else (oldest_key, oldest_at)

unfoldable pub oldest : ℕ → Cache → Text × ℕ → Text × ℕ
oldest now [] found = found
oldest now ((key, e) ∷ c) found =
    oldest now c (if is_expired now e then found else older key e found)

unfoldable pub evict : Text → Cache → Cache
evict oldest_key c =
    if leb cache_max_size (length c) && not (is_empty oldest_key) then erase oldest_key c else c

unfoldable pub make_room : ℕ → Cache → Cache
make_room now c =
    if leb cache_max_size (length c) then evict (oldest now c ([], 0)).0 (drop_expired now c) else c

unfoldable pub put : CaseTable → ℕ → ℕ → Text → ℤ → List SearchHit → Cache → Cache
put table now stored_at query limit hits c =
    insert (cache_key table query limit)
      (record { hits = hits; expires_at = stored_at + cache_ttl }) (make_room now c)

-- What a searcher fails with: the deadline of the call, or anything else.
pub data SearchError : Type 0 where
  deadline_exceeded : SearchError
  other_error : Text → SearchError

abbrev pub to_hit : SearchResult → SearchHit
to_hit r = record {
  isbn = r.isbn;
  title = r.title;
  author = r.author;
  year = r.year;
  publisher = r.publisher;
}

-- The readings of the clock in one request.
pub record Clock : Type 0 where
  pub looked_up : ℕ
  pub swept : ℕ
  pub stored : ℕ

abbrev pub Searcher : Type 0 → Type 0
Searcher W = Text → ℤ → Action W SearchError (List SearchResult)

abbrev pub Outcome : Type 0 → Type 0
Outcome W = Result HttpError (List SearchHit) × (Cache × W)

abbrev pub is_stranger : Option Identity → Bool
is_stranger none = true
is_stranger (some id) = is_empty id.subject

module _ {W : Type 0} where
  abbrev pub after_search :
      CaseTable → Clock → Text → ℤ → Cache → Result SearchError (List SearchResult) × W → Outcome W
  after_search table clock query limit c (ok found, w) =
      let hits = map to_hit found in
      (ok hits, (put table clock.swept clock.stored query limit hits c, w))
  after_search table clock query limit c (err deadline_exceeded, w) =
      (err (http_error 504 (codes "search timed out")), (c, w))
  after_search table clock query limit c (err (other_error e), w) =
      (err (http_error 502 (codes "search provider unavailable")), (c, w))

  abbrev pub after_cache :
      CaseTable → Clock → Searcher W → Text → ℤ → Cache → W → Option (List SearchHit) → Outcome W
  after_cache table clock searcher query limit c w (some hits) = (ok hits, (c, w))
  after_cache table clock searcher query limit c w none =
      after_search table clock query limit c (searcher query limit w)

  abbrev pub with_searcher :
      CaseTable → Clock → Option (Searcher W) → Text → ℤ → Cache → W → Outcome W
  with_searcher table clock none query limit c w =
      (err (http_error 503 (codes "search is not available")), (c, w))
  with_searcher table clock (some searcher) query limit c w =
      after_cache table clock searcher query limit c w (cached table clock.looked_up query limit c)

  -- `Handler.search`; the answer is the list that `respond` wraps.
  unfoldable pub search_editions :
      CaseTable → Clock → Option (Searcher W) → Option Identity → Text → ℤ → Cache × W → Outcome W
  search_editions table clock searcher who q limit (c, w) =
      if is_stranger who
      then (err unauthorized, (c, w))
      else with_searcher table clock searcher (trim_space q) limit c w
