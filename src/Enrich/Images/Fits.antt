-- ===== src/Enrich/Images/Fits.antt =====
-- The images that the providers of package internal/enrich let through.
use book_guard_api.Base.{
  ℕ, suc, ◌≤◌, ◌≡◌, subst, inl, inr, false, List, [], Text, is_empty, nat_eq, ltb, length, Result,
  ok, err, Bool-cases, arith,
}
use book_guard_api.Enrich.Provider.{Cover, ProviderError}
use book_guard_api.Enrich.Fallback.{or_second, fallback_cover}
use book_guard_api.Enrich.Network.{
  Body, Response, Network, Fetched, http_get_with_retry, read_limited,
}
use book_guard_api.Enrich.Images.{content_type_of, checked_image, read_cover}
use book_guard_api.Enrich.OpenLibrary.{
  OlDecoder, OpenLibrary, after_cover, cover_url_of, ol_fetch_cover, open_library_provider,
  user_agent,
}
use book_guard_api.Enrich.GoogleBooks.{
  Volumes, VolumeInfo, GoogleBooks, after_image, after_volume, lookup_volume, gb_fetch_cover,
  google_books_provider,
}

-- Neither empty nor longer than the limit, and with a content type.
abbrev pub Fits : ℕ → Cover → Type 0
Fits limit c = (1 ≤ length c.bytes) × (length c.bytes ≤ limit) × (is_empty c.content_type ≡ false)

abbrev pub GivesFits : ℕ → Result ProviderError Cover → Type 0
GivesFits limit (ok c) = Fits limit c
GivesFits limit (err e) = Unit

content_type_filled : (resp : Response) → is_empty (content_type_of resp) ≡ false
content_type_filled resp = elim (Bool-cases (is_empty resp.content_type)) [
  | inl blank ↦ rw blank
  | inr filled ↦ rw filled filled
]

checked_image-GivesFits :
    (limit : ℕ) (resp : Response) (etag url : Text) (r : Result Text (List ℕ))
    → GivesFits limit (checked_image limit resp etag url r)
checked_image-GivesFits limit resp etag url (err e) = tt
checked_image-GivesFits limit resp etag url (ok bytes) =
    elim (Bool-cases (ltb limit (length bytes))) [
      | inl long ↦ rw long tt
      | inr short ↦ elim (Bool-cases (nat_eq (length bytes) 0)) [
        | inl empty ↦ rw (short, empty) tt
        | inr some_bytes ↦
            rw (short, some_bytes)
              (ground (arith, some_bytes), ground (arith, short), content_type_filled resp)
      ]
    ]

read_cover-GivesFits :
    (limit : ℕ) (resp : Response) (etag url : Text)
    → GivesFits limit (read_cover limit resp etag url)
unfolding read_cover
read_cover-GivesFits limit resp etag url =
    checked_image-GivesFits limit resp etag url (read_limited (suc limit) resp.body)

module _ {W : Type 0} (net : Network W) (decoder : OlDecoder) (p : OpenLibrary) where
  after_cover-GivesFits :
      (url : Text) (r : Fetched W) → GivesFits p.cover_max_bytes (after_cover net decoder p url r).0
  after_cover-GivesFits url (err e, w) = tt
  after_cover-GivesFits url (ok resp, w) = elim (Bool-cases (nat_eq resp.status 404)) [
    | inl missing ↦ rw missing tt
    | inr other ↦ elim (Bool-cases (nat_eq resp.status 200)) [
      | inl good ↦ rw (other, good) (read_cover-GivesFits p.cover_max_bytes resp resp.etag url)
      | inr bad ↦ rw (other, bad) tt
    ]
  ]

  ol_fetch_cover-GivesFits :
      (isbn : Text) (w : W) → GivesFits p.cover_max_bytes (ol_fetch_cover net decoder p isbn w).0
  unfolding ol_fetch_cover
  ol_fetch_cover-GivesFits isbn w =
      after_cover-GivesFits (cover_url_of net decoder p isbn)
        (http_get_with_retry net (cover_url_of net decoder p isbn) user_agent w)

module _ {W : Type 0} (net : Network W) (decode : Body → Result Text Volumes)
    (p : GoogleBooks) where
  after_image-GivesFits :
      (url : Text) (r : Fetched W) → GivesFits p.cover_max_bytes (after_image net decode p url r).0
  after_image-GivesFits url (err e, w) = tt
  after_image-GivesFits url (ok resp, w) = elim (Bool-cases (nat_eq resp.status 200)) [
    | inl good ↦ rw good (read_cover-GivesFits p.cover_max_bytes resp [] url)
    | inr bad ↦ rw bad tt
  ]

  after_volume-GivesFits :
      (r : Result ProviderError VolumeInfo × W)
      → GivesFits p.cover_max_bytes (after_volume net decode p r).0
  after_volume-GivesFits (err e, w) = tt
  after_volume-GivesFits (ok info, w) = elim (Bool-cases (is_empty info.thumbnail)) [
    | inl bare ↦ rw bare tt
    | inr linked ↦
        rw linked (
          after_image-GivesFits info.thumbnail
            (http_get_with_retry net info.thumbnail user_agent w))
  ]

  gb_fetch_cover-GivesFits :
      (isbn : Text) (w : W) → GivesFits p.cover_max_bytes (gb_fetch_cover net decode p isbn w).0
  unfolding gb_fetch_cover
  gb_fetch_cover-GivesFits isbn w = after_volume-GivesFits (lookup_volume net decode p isbn w)

or_second-GivesFits :
    {W : Type 0} (limit : ℕ) (second : W → Result ProviderError Cover × W)
    (r : Result ProviderError Cover × W)
    → GivesFits limit r.0
    → ((w : W) → GivesFits limit (second w).0)
    → GivesFits limit (or_second second r).0
or_second-GivesFits limit second (ok c, w) h k = h
or_second-GivesFits limit second (err e, w) h k = k w

-- Whatever the two hosts answer, the cover that Open Library or else Google Books gives has at
-- least one byte, at most the limit that both have, and a content type.
pub fallback_cover-GivesFits :
    {W : Type 0} (net : Network W) (decoder : OlDecoder) (decode : Body → Result Text Volumes)
    (p : OpenLibrary) (q : GoogleBooks) (isbn : Text) (w : W)
    → q.cover_max_bytes ≡ p.cover_max_bytes
    → GivesFits p.cover_max_bytes
        (fallback_cover
          (open_library_provider net decoder p)
          (google_books_provider net decode q)
          isbn
          w).0
unfolding fallback_cover
fallback_cover-GivesFits net decoder decode p q isbn w same =
    or_second-GivesFits p.cover_max_bytes (gb_fetch_cover net decode q isbn)
      (ol_fetch_cover net decoder p isbn w) (ol_fetch_cover-GivesFits net decoder p isbn w)
      (λ w'.
        subst (λ n. GivesFits n (gb_fetch_cover net decode q isbn w').0) same
          (gb_fetch_cover-GivesFits net decode q isbn w'))
