-- ===== src/Enrich/GoogleBooks.antt =====
-- internal/enrich/googlebooks.go, over the network and the JSON decoding of the volumes.
use book_guard_api.Base.{
  ℕ, ℤ, List, [], ◌∷◌, ◌++◌, Text, codes, is_empty, nat_eq, join, query_escape, trim_right_slashes,
  is_zero_ℤ, if◌then◌else◌, Result, ok, err,
}
use book_guard_api.Enrich.Provider.{
  Metadata, Cover, ProviderError, not_found, no_cover, upstream, Provider,
}
use book_guard_api.Enrich.Network.{Body, Network, Fetched, status_error, http_get_with_retry}
use book_guard_api.Enrich.Images.{default_cover_max_bytes, read_cover}
use book_guard_api.Enrich.OpenLibrary.{user_agent}

pub record VolumeInfo : Type 0 where
  pub title : Text
  pub authors : List Text
  pub publisher : Text
  pub published_date : Text
  pub description : Text
  pub page_count : ℤ
  pub thumbnail : Text

pub record Volumes : Type 0 where
  pub total_items : ℤ
  pub items : List VolumeInfo

pub record GoogleBooks : Type 0 where
  pub base_url : Text
  pub api_key : Text
  pub cover_max_bytes : ℕ

unfoldable pub new_google_books : Text → Text → GoogleBooks
new_google_books base_url api_key = record {
  base_url =
      trim_right_slashes
        (if is_empty base_url then codes "https://www.googleapis.com" else base_url);
  api_key = api_key;
  cover_max_bytes = default_cover_max_bytes;
}

abbrev pub first_item : List VolumeInfo → Result ProviderError VolumeInfo
first_item [] = err not_found
first_item (info ∷ infos) = ok info

abbrev pub decoded_volumes : Result Text Volumes → Result ProviderError VolumeInfo
decoded_volumes (err e) = err (upstream (codes "decode googlebooks response: " ++ e))
decoded_volumes (ok payload) =
    if is_zero_ℤ payload.total_items then err not_found else first_item payload.items

abbrev pub volume_metadata : VolumeInfo → Metadata
volume_metadata info = record {
  title = info.title;
  author = join (codes ", ") info.authors;
  description = info.description;
  publisher = info.publisher;
  published_date = info.published_date;
  page_count = info.page_count;
}

module _ {W : Type 0} (net : Network W) (decode : Body → Result Text Volumes)
    (p : GoogleBooks) where
  abbrev pub volumes_url : Text → Text
  volumes_url isbn =
      p.base_url
      ++ (codes "/books/v1/volumes?q=isbn:"
          ++ (query_escape isbn
              ++ (if is_empty p.api_key then [] else codes "&key=" ++ query_escape p.api_key)))

  abbrev pub after_volumes : Fetched W → Result ProviderError VolumeInfo × W
  after_volumes (err e, w) = (err e, w)
  after_volumes (ok resp, w) = (
    if nat_eq resp.status 200
        then decoded_volumes (decode resp.body)
        else err (upstream (status_error (codes "googlebooks lookup: ") resp.status)),
    w,
  )

  unfoldable pub lookup_volume : Text → W → Result ProviderError VolumeInfo × W
  lookup_volume isbn w = after_volumes (http_get_with_retry net (volumes_url isbn) user_agent w)

  abbrev pub as_metadata : Result ProviderError VolumeInfo × W → Result ProviderError Metadata × W
  as_metadata (err e, w) = (err e, w)
  as_metadata (ok info, w) = (ok (volume_metadata info), w)

  unfoldable pub gb_lookup : Text → W → Result ProviderError Metadata × W
  gb_lookup isbn w = as_metadata (lookup_volume isbn w)

  -- The response has no ETag that is kept.
  abbrev pub after_image : Text → Fetched W → Result ProviderError Cover × W
  after_image url (err e, w) = (err e, w)
  after_image url (ok resp, w) = (
    if nat_eq resp.status 200
        then read_cover p.cover_max_bytes resp [] url
        else err (upstream (status_error (codes "googlebooks cover: ") resp.status)),
    w,
  )

  abbrev pub after_volume : Result ProviderError VolumeInfo × W → Result ProviderError Cover × W
  after_volume (err e, w) = (err e, w)
  after_volume (ok info, w) =
      if is_empty info.thumbnail
      then (err no_cover, w)
      else after_image info.thumbnail (http_get_with_retry net info.thumbnail user_agent w)

  unfoldable pub gb_fetch_cover : Text → W → Result ProviderError Cover × W
  gb_fetch_cover isbn w = after_volume (lookup_volume isbn w)

  abbrev pub google_books_provider : Provider W
  google_books_provider = record { lookup_isbn = gb_lookup; fetch_cover = gb_fetch_cover }
