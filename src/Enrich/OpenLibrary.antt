-- ===== src/Enrich/OpenLibrary.antt =====
-- internal/enrich/openlibrary.go, over the network and the JSON decoding of the two payloads.
pub mod Pick
pub mod Results
use book_guard_api.Base.{
  ℕ, zero, suc, ℤ, pos, leb_ℤ, ltb_ℤ, Bool, true, false, not, ◌||◌, ◌&&◌, List, [], ◌∷◌, ◌++◌, map,
  keep, Option, none, some, Text, codes, is_empty, nat_eq, is_digit, CaseTable, to_upper, Map,
  lookup, join, trim_space, itoa, query_escape, path_escape, byte_length, trim_right_slashes,
  if◌then◌else◌, Result, ok, err,
}
use book_guard_api.Enrich.Provider.{
  Metadata, Cover, SearchResult, ProviderError, not_found, no_cover, upstream, Provider,
}
use book_guard_api.Enrich.Network.{
  Body, Response, Network, Fetched, status_error, http_get_with_retry,
}
use book_guard_api.Enrich.Images.{default_cover_max_bytes, read_cover}

abbrev pub default_search_limit : ℤ
default_search_limit = pos 10

abbrev pub max_search_limit : ℤ
max_search_limit = pos 25

abbrev pub user_agent : Text
user_agent = codes "ex-libris/1.0 (self-hosted book tracker)"

-- The fields that are used; names and texts are the `name` and `text` of the entries.
pub record OlData : Type 0 where
  pub title : Text
  pub authors : List Text
  pub publishers : List Text
  pub publish_date : Text
  pub pages : ℤ
  pub excerpts : List Text

pub record OlDoc : Type 0 where
  pub title : Text
  pub author_name : List Text
  pub first_publish_year : ℤ
  pub publisher : List Text
  pub isbn : List Text

-- `json.NewDecoder(body).Decode` for the two payloads.
pub record OlDecoder : Type 0 where
  pub decode_books : Body → Result Text (Map OlData)
  pub decode_search : Body → Result Text (List OlDoc)

pub record OpenLibrary : Type 0 where
  pub base_url : Text
  pub covers_url : Text
  pub cover_max_bytes : ℕ

unfoldable pub new_open_library : Text → Text → OpenLibrary
new_open_library base_url covers_url = record {
  base_url =
      trim_right_slashes (if is_empty base_url then codes "https://openlibrary.org" else base_url);
  covers_url =
      trim_right_slashes
        (if is_empty covers_url then codes "https://covers.openlibrary.org" else covers_url);
  cover_max_bytes = default_cover_max_bytes;
}

-- `xs[0]`, where there is one.
abbrev pub first_or_empty : List Text → Text
first_or_empty [] = []
first_or_empty (t ∷ ts) = t

abbrev pub to_metadata : OlData → Metadata
to_metadata d = record {
  title = d.title;
  author = join (codes ", ") d.authors;
  description = first_or_empty d.excerpts;
  publisher = first_or_empty d.publishers;
  published_date = d.publish_date;
  page_count = d.pages;
}

abbrev pub found_book : Option OlData → Result ProviderError Metadata
found_book none = err not_found
found_book (some d) = ok (to_metadata d)

abbrev pub decoded_book : Text → Result Text (Map OlData) → Result ProviderError Metadata
decoded_book isbn (err e) = err (upstream (codes "decode openlibrary response: " ++ e))
decoded_book isbn (ok payload) = found_book (lookup (codes "ISBN:" ++ isbn) payload)

-- `^97[89][0-9]{10}$`.
unfoldable pub digits_only : ℕ → Text → Bool
digits_only zero s = is_empty s
digits_only (suc n) [] = false
digits_only (suc n) (c ∷ s) = is_digit c && digits_only n s

abbrev pub is_isbn13 : Text → Bool
is_isbn13 (a ∷ b ∷ c ∷ s) =
    nat_eq a b'9' && nat_eq b b'7' && (nat_eq c b'8' || nat_eq c b'9') && digits_only 10 s
is_isbn13 _ = false

-- `strings.NewReplacer("-", "", " ", "")`, then `strings.ToUpper`.
unfoldable pub clean_isbn : CaseTable → Text → Text
clean_isbn table raw = map (to_upper table) (keep (λ c. not (nat_eq c b'-' || nat_eq c b' ')) raw)

abbrev pub next_fallback : Text → Text → Text
next_fallback fallback isbn =
    if is_empty fallback && nat_eq (byte_length isbn) 10 then isbn else fallback

-- The loop of `pickISBN`, with the fallback so far.
unfoldable pub pick_from : CaseTable → Text → List Text → Text
pick_from table fallback [] = fallback
pick_from table fallback (raw ∷ raws) =
    let isbn = clean_isbn table raw in
    let rest = pick_from table (next_fallback fallback isbn) raws in
    if is_isbn13 isbn then isbn else rest

unfoldable pub pick_isbn : CaseTable → List Text → Text
pick_isbn table candidates = pick_from table [] candidates

abbrev pub to_result : Text → OlDoc → SearchResult
to_result isbn doc = record {
  isbn = isbn;
  title = doc.title;
  author = join (codes ", ") doc.author_name;
  publisher = first_or_empty doc.publisher;
  year = doc.first_publish_year;
}

unfoldable pub results_of : CaseTable → List OlDoc → List SearchResult
results_of table [] = []
results_of table (doc ∷ docs) =
    let isbn = pick_isbn table doc.isbn in
    let rest = results_of table docs in if is_empty isbn then rest else to_result isbn doc ∷ rest

abbrev pub decoded_search :
    CaseTable → Result Text (List OlDoc) → Result ProviderError (List SearchResult)
decoded_search table (err e) = err (upstream (codes "decode openlibrary search: " ++ e))
decoded_search table (ok docs) = ok (results_of table docs)

unfoldable pub search_limit : ℤ → ℤ
search_limit limit =
    let given = if leb_ℤ limit (pos 0) then default_search_limit else limit in
    if ltb_ℤ max_search_limit given then max_search_limit else given

module _ {W : Type 0} (net : Network W) (decoder : OlDecoder) (p : OpenLibrary) where
  abbrev pub books_url : Text → Text
  books_url isbn =
      p.base_url
      ++ (codes "/api/books?bibkeys=ISBN:"
          ++ (query_escape isbn ++ codes "&format=json&jscmd=data"))

  abbrev pub after_books : Text → Fetched W → Result ProviderError Metadata × W
  after_books isbn (err e, w) = (err e, w)
  after_books isbn (ok resp, w) = (
    if nat_eq resp.status 200
        then decoded_book isbn (decoder.decode_books resp.body)
        else err (upstream (status_error (codes "openlibrary lookup: ") resp.status)),
    w,
  )

  unfoldable pub ol_lookup : Text → W → Result ProviderError Metadata × W
  ol_lookup isbn w = after_books isbn (http_get_with_retry net (books_url isbn) user_agent w)

  abbrev pub search_url : Text → ℤ → Text
  search_url query limit =
      p.base_url
      ++ (codes "/search.json?q="
          ++ (query_escape query
              ++ (codes "&fields=title,author_name,first_publish_year,publisher,isbn&limit="
                  ++ itoa limit)))

  abbrev pub after_search : CaseTable → Fetched W → Result ProviderError (List SearchResult) × W
  after_search table (err e, w) = (err e, w)
  after_search table (ok resp, w) = (
    if nat_eq resp.status 200
        then decoded_search table (decoder.decode_search resp.body)
        else err (upstream (status_error (codes "openlibrary search: ") resp.status)),
    w,
  )

  unfoldable pub ol_search : CaseTable → Text → ℤ → W → Result ProviderError (List SearchResult) × W
  ol_search table query limit w =
      let query' = trim_space query in
      if is_empty query'
      then (ok [], w)
      else after_search table
          (http_get_with_retry net (search_url query' (search_limit limit)) user_agent w)

  abbrev pub cover_url_of : Text → Text
  cover_url_of isbn =
      p.covers_url ++ (codes "/b/isbn/" ++ (path_escape isbn ++ codes "-L.jpg?default=false"))

  abbrev pub after_cover : Text → Fetched W → Result ProviderError Cover × W
  after_cover url (err e, w) = (err e, w)
  after_cover url (ok resp, w) = (
    if nat_eq resp.status 404
        then err no_cover
        else (if nat_eq resp.status 200
            then read_cover p.cover_max_bytes resp resp.etag url
            else err (upstream (status_error (codes "openlibrary cover: ") resp.status))),
    w,
  )

  unfoldable pub ol_fetch_cover : Text → W → Result ProviderError Cover × W
  ol_fetch_cover isbn w =
      after_cover (cover_url_of isbn) (http_get_with_retry net (cover_url_of isbn) user_agent w)

  abbrev pub open_library_provider : Provider W
  open_library_provider = record { lookup_isbn = ol_lookup; fetch_cover = ol_fetch_cover }
