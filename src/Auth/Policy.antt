-- ===== src/Auth/Policy.antt =====
-- Who gets past the middleware of internal/auth/auth.go, and how the others are answered.
use book_guard_api.Base.{
  ℕ, ◌≡◌, ◌∙◌, ◌↔◌, ap, ◌⊎◌, inl, inr, true, List, [], ◌∷◌, Option, some, Text, codes, eq_iff,
  is_empty, In, Bool-cases, Option-cases, arith,
}
use book_guard_api.Auth.{
  Identity, Claims, Token, contains, identity_of, verify, parse_bearer, Verdict, admit, refuse,
  huma_middleware,
}

contains_iff : (groups : List Text) (want : Text) → (contains groups want ≡ true) ↔ In want groups
unfolding contains
contains_iff [] want = ground arith
contains_iff (g ∷ groups) want = ground (arith, eq_iff g want, contains_iff groups want)

-- The caller may pass: no group is required, or the caller is in it.
abbrev pub MayPass : Text → Claims → Type 0
MayPass required_group claims = (is_empty required_group ≡ true) ⊎ In required_group claims.groups

-- A header whose token go-oidc accepts, with claims that decode.
abbrev pub Authenticates : (Text → Option Token) → Text → Token → Claims → Type 0
Authenticates check header token claims =
    (raw : Text) × (parse_bearer header ≡ some raw)
    × (check raw ≡ some token)
    × (token.claims ≡ some claims)

module _ (check : Text → Option Token) (required_group header : Text) where
  abbrev answer : Verdict
  answer = huma_middleware (verify check required_group) header

  -- The verdict on an authenticated caller.
  policy :
      (token : Token) (claims : Claims)
      → Authenticates check header token claims
      → (MayPass required_group claims × (answer ≡ admit (identity_of token claims)))
        ⊎ ((¬ MayPass required_group claims) × (answer ≡ refuse 403 (codes "Forbidden")))
  unfolding huma_middleware verify
  policy token claims (raw, read, checked, decoded) = elim (Bool-cases (is_empty required_group)) [
    | inl open_door ↦ inl (inl open_door, rw (read, checked, decoded, open_door))
    | inr closed ↦ elim (Bool-cases (contains claims.groups required_group)) [
      | inl member ↦ inl (
        inr ((contains_iff claims.groups required_group).0 member),
        rw (read, checked, decoded, closed, member),
      )
      | inr outside ↦ inr (
        λ pass. elim pass [
          | inl open_door ↦ cc
          | inr member ↦ cc ((contains_iff claims.groups required_group).1 member)
        ],
        rw (read, checked, decoded, closed, outside),
      )
    ]
  ]

  -- Either the caller is authenticated, or the answer is a 401.
  authenticated :
      ((token : Token) × (claims : Claims) × Authenticates check header token claims)
      ⊎ ((message : Text) × (answer ≡ refuse 401 message))
  unfolding huma_middleware verify
  authenticated = elim (Option-cases (parse_bearer header)) [
    | inl unread ↦ inr (codes "unauthenticated", rw unread)
    | inr (raw, read) ↦ elim (Option-cases (check raw)) [
      | inl bad ↦ inr (codes "Unauthorized", rw (read, bad))
      | inr (token, checked) ↦ elim (Option-cases token.claims) [
        | inl garbled ↦ inr (codes "Unauthorized", rw (read, checked, garbled))
        | inr (claims, decoded) ↦ inl (token, claims, (raw, read, checked, decoded))
      ]
    ]
  ]

  -- The middleware lets a request through with an identity exactly if its header carries a token
  -- that go-oidc accepts, whose claims decode to that identity, and no group is required or the
  -- claims list it.
  pub admit_iff :
      (id : Identity)
      → (answer ≡ admit id) ↔ (
          (token : Token) × (claims : Claims) × Authenticates check header token claims
          × MayPass required_group claims
          × (identity_of token claims ≡ id))
  admit_iff id = (
    λ passed. elim authenticated [
      | inr (message, refused) ↦ absurd (ground (arith, passed, refused))
      | inl (token, claims, auth) ↦ elim (policy token claims auth) [
        | inl (pass, admitted) ↦ (token, claims, auth, pass, ground (arith, passed, admitted))
        | inr (outside, refused) ↦ absurd (ground (arith, passed, refused))
      ]
    ],
    λ (token, claims, auth, pass, same). elim (policy token claims auth) [
      | inl (_, admitted) ↦ admitted ∙ ap admit same
      | inr (outside, _) ↦ absurd (outside pass)
    ],
  )

  -- A request that is refused gets a 401, unless its caller is authenticated and outside the
  -- required group: then, and only then, it gets a 403.
  pub refuse_iff :
      (status : ℕ) (message : Text)
      → answer ≡ refuse status message
      → ((status ≡ 401) ⊎ (status ≡ 403))
        × ((status ≡ 403) ↔ (
            (token : Token) × (claims : Claims) × Authenticates check header token claims
            × (¬ MayPass required_group claims)))
  refuse_iff status message refused = elim authenticated [
    | inr (m, unknown) ↦ (
      inl (ground (arith, refused, unknown)),
      (
        λ h. absurd (ground (arith, refused, unknown, h)),
        λ (token, claims, auth, outside). elim (policy token claims auth) [
          | inl (pass, admitted) ↦ absurd (outside pass)
          | inr (_, barred) ↦ ground (arith, refused, barred)
        ],
      ),
    )
    | inl (token, claims, auth) ↦ elim (policy token claims auth) [
      | inl (pass, admitted) ↦ absurd (ground (arith, refused, admitted))
      | inr (outside, barred) ↦
          let e : status ≡ 403 = ground (arith, refused, barred) in
          (inr e, (λ h. (token, claims, auth, outside), λ all. e))
    ]
  ]
