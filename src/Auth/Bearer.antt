-- ===== src/Auth/Bearer.antt =====
-- `parseBearer` of internal/auth/auth.go.
use book_guard_api.Base.{
  ◌≡◌, ◌≢◌, ◌↔◌, refl, sym, ap, ◌∙◌, subst, true, false, [], ◌∷◌, ◌++◌, some, none, Text, codes,
  eq_iff, is_empty, length, take, drop, map, ascii_lower, trim_space, arith, if◌then◌else◌, ltb,
  take-append-drop, take-append_length, drop-append_length, length-map, length-append,
}
use book_guard_api.Auth.{bearer_prefix, equal_fold, parse_bearer}

abbrev lower_bearer : Text
lower_bearer = codes "bearer "

equal_fold-bearer :
    (s : Text) → (equal_fold s bearer_prefix ≡ true) ↔ (map ascii_lower s ≡ lower_bearer)
unfolding equal_fold ascii_lower
equal_fold-bearer s = eq_iff (map ascii_lower s) lower_bearer

is_empty-false : (s : Text) → (is_empty s ≡ false) ↔ (s ≢ [])
is_empty-false [] = (λ h. cc, λ h. absurd (h refl))
is_empty-false (c ∷ s) = (λ h e. cc, λ h. refl)

-- The parts of a header.
parse_bearer_parts :
    (scheme rest : Text)
    → map ascii_lower scheme ≡ lower_bearer
    → parse_bearer (scheme ++ rest)
      ≡ (if is_empty (trim_space rest) then none else some (trim_space rest))
unfolding parse_bearer
parse_bearer_parts scheme rest e =
    let seven : length scheme ≡ 7 = sym (length-map ascii_lower scheme) ∙ ap length e in
    let front =
      subst (λ n. take n (scheme ++ rest) ≡ scheme) seven (take-append_length scheme rest) in
    let back = subst (λ n. drop n (scheme ++ rest) ≡ rest) seven (drop-append_length scheme rest) in
    let long : ltb (length (scheme ++ rest)) 7 ≡ false =
      ground (arith, length-append scheme rest, seven) in
    rw (long, front, (equal_fold-bearer scheme).1 e, back)

found_parts :
    (h token : Text)
    → parse_bearer h ≡ some token
    → (equal_fold (take 7 h) bearer_prefix ≡ true)
      × (trim_space (drop 7 h) ≡ token)
      × (is_empty token ≡ false)
unfolding parse_bearer
found_parts h token found = ground arith

-- A header is read exactly if it is "Bearer " in any case and a rest that is not blank, and the
-- token is the rest without the spaces around it.
pub parse_bearer_iff :
    (h token : Text)
    → (parse_bearer h ≡ some token) ↔ (
        (scheme : Text) × (rest : Text) × (h ≡ scheme ++ rest)
        × (map ascii_lower scheme ≡ codes "bearer ")
        × (trim_space rest ≡ token)
        × (token ≢ []))
parse_bearer_iff h token = (
  λ found.
      let (word, trimmed, filled) = found_parts h token found in
      (
        take 7 h,
        drop 7 h,
        sym (take-append-drop 7 h),
        (equal_fold-bearer (take 7 h)).0 word,
        trimmed,
        (is_empty-false token).0 filled,
      ),
  λ (scheme, rest, split, word, trimmed, filled).
      rw (split, parse_bearer_parts scheme rest word, trimmed, (is_empty-false token).1 filled),
)
