-- ===== src/Search/Bounds.antt =====
-- The size of the cache of internal/search/handlers.go.
use book_guard_api.Base.{
  ℕ, ℤ, ◌+◌, ◌≤◌, ◌≡◌, refl, inl, inr, false, List, [], ◌∷◌, ◌++◌, map, Text, is_empty, leb, length,
  itoa, fields, join, codes, to_lower, CaseTable, Bool-cases, arith,
}
use book_guard_api.Search.{
  SearchHit, CacheEntry, Cache, cache_ttl, cache_max_size, cache_key, make_room, put,
}
use book_guard_api.Search.Eviction.{
  IsSound, length-insert, insert-IsSound, drop_expired-IsSound, evict_fits, evict-IsSound,
}

make_room_fits :
    (now : ℕ) (c : Cache)
    → IsSound c
    → length c ≤ 256
    → (length (make_room now c) ≤ 255) × IsSound (make_room now c)
unfolding make_room
make_room_fits now c s h = elim (Bool-cases (leb 256 (length c))) [
  | inr room ↦ rw room (ground (arith, room), s)
  | inl full ↦ rw full (evict_fits now c s h, evict-IsSound _ _ (drop_expired-IsSound now c s))
]

cache_key_filled :
    (table : CaseTable) (query : Text) (limit : ℤ) → is_empty (cache_key table query limit) ≡ false
unfolding cache_key
cache_key_filled table query limit =
    append_filled (map (to_lower table) (join (codes " ") (fields query)))
  where
    append_filled : (s : Text) → is_empty (s ++ (0 ∷ itoa limit)) ≡ false
    append_filled [] = refl
    append_filled (c ∷ s) = refl

put_fits :
    (table : CaseTable) (now stored_at : ℕ) (query : Text) (limit : ℤ) (hits : List SearchHit)
    (c : Cache)
    → IsSound c × (length c ≤ 256)
    → IsSound (put table now stored_at query limit hits c)
      × (length (put table now stored_at query limit hits c) ≤ 256)
unfolding put
put_fits table now stored_at query limit hits c (s, h) =
    let (room, sound) = make_room_fits now c s h in
    let key = cache_key table query limit in
    let e : CacheEntry = record { hits = hits; expires_at = stored_at + cache_ttl } in
    (
      insert-IsSound key e (make_room now c) (cache_key_filled table query limit) (omega arith)
          sound,
      omega (arith, length-insert key e (make_room now c), room),
    )

-- One `put`, with the two times that it reads.
pub record Put : Type 0 where
  pub now : ℕ
  pub stored_at : ℕ
  pub query : Text
  pub limit : ℤ
  pub hits : List SearchHit

pub put_all : CaseTable → List Put → Cache → Cache
put_all table [] c = c
put_all table (p ∷ ps) c = put_all table ps (put table p.now p.stored_at p.query p.limit p.hits c)

put_all_fits_from :
    (table : CaseTable) (ps : List Put) (c : Cache)
    → IsSound c × (length c ≤ 256)
    → IsSound (put_all table ps c) × (length (put_all table ps c) ≤ 256)
unfolding put_all
put_all_fits_from table [] c h = h
put_all_fits_from table (p ∷ ps) c h =
    put_all_fits_from table ps (put table p.now p.stored_at p.query p.limit p.hits c)
      (put_fits table p.now p.stored_at p.query p.limit p.hits c h)

-- However many results are put into a new cache, at whatever times, it never holds more than 256.
pub put_all_fits :
    (table : CaseTable) (ps : List Put) → length (put_all table ps []) ≤ cache_max_size
put_all_fits table ps = (put_all_fits_from table ps [] (tt, omega arith)).1
