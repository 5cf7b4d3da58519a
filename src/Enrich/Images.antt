-- ===== src/Enrich/Images.antt =====
-- The end of `FetchCover`, which internal/enrich/openlibrary.go and googlebooks.go write alike: the
-- image is read up to a limit, and an answer that is too long or empty is no cover.
pub mod Fits
use book_guard_api.Base.{
  ℕ, suc, Bool, true, false, List, [], ◌∷◌, ◌++◌, Text, codes, ltb, nat_eq, length, is_empty, itoa,
  pos, if◌then◌else◌, Result, ok, err,
}
use book_guard_api.Enrich.Provider.{Cover, ProviderError, no_cover, upstream}
use book_guard_api.Enrich.Network.{Body, Response, read_limited}

-- 5 << 20.
abbrev pub default_cover_max_bytes : ℕ
default_cover_max_bytes = 5_242_880

abbrev pub content_type_of : Response → Text
content_type_of resp = if is_empty resp.content_type then codes "image/jpeg" else resp.content_type

abbrev pub oversized : ℕ → ProviderError
oversized limit = upstream (codes "cover exceeds " ++ (itoa (pos limit) ++ codes " bytes"))

-- `limit + 1` bytes are read at most.
abbrev pub checked_image :
    ℕ → Response → Text → Text → Result Text (List ℕ) → Result ProviderError Cover
checked_image limit resp etag source_url (err e) = err (upstream (codes "read cover: " ++ e))
checked_image limit resp etag source_url (ok bytes) =
    if ltb limit (length bytes)
    then err (oversized limit)
    else (if nat_eq (length bytes) 0
        then err no_cover
        else ok (record {
          content_type = content_type_of resp;
          bytes = bytes;
          etag = etag;
          source_url = source_url;
        }))

unfoldable pub read_cover : ℕ → Response → Text → Text → Result ProviderError Cover
read_cover limit resp etag source_url =
    checked_image limit resp etag source_url (read_limited (suc limit) resp.body)
