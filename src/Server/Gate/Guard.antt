-- ===== src/Server/Gate/Guard.antt =====
-- Who passes the gate of crates/server/src/router.rs.
use merkur_db.Base.Text.{Text, text_eq, text_eq_refl, text_eq-In, codes, strip_prefix}
use merkur_db.Base.{
  ◌≡◌, ◌≢◌, refl, ap, ◌⊎◌, inl, inr, Bool, true, false, List, [], ◌∷◌, ◌++◌, Option, none, some,
  any, In, ◌==◌, arith, Bool-cases, Option-cases,
}
use merkur_db.Config.{AuthConfig}
use merkur_db.Server.Errors.{ApiResult, Handler, failed, unauthorized}
use merkur_db.Server.Gate.{
  rate_limited, bearer_token, is_valid_token, authorizes, require_auth, check_rate_limit, protected,
}
use merkur_db.Store.Insert.{unwrap_or}

-- Authentication is off, or the header carries one of the tokens, which is not empty.
abbrev pub IsAuthorized : AuthConfig → Option Text → Type 0
IsAuthorized auth header =
    (auth.disabled ≡ true)
    ⊎ ((token : Text) × (header ≡ some (codes "Bearer " ++ token))
        × (token ≢ [])
        × In token auth.tokens)

strip_prefix_split : (p s t : Text) → strip_prefix p s ≡ some t → s ≡ p ++ t
unfolding strip_prefix
strip_prefix_split [] s t e = ground (arith, e)
strip_prefix_split (c ∷ p) [] t e = absurd (ground (arith, e))
strip_prefix_split (c ∷ p) (d ∷ s) t e = elim (Bool-cases (c == d)) [
  | inl h ↦ ground (arith, h, strip_prefix_split p s t (ground (arith, e, h)))
  | inr h ↦ absurd (ground (arith, e, h))
]

strip_prefix-append : (p t : Text) → strip_prefix p (p ++ t) ≡ some t
unfolding strip_prefix
strip_prefix-append [] t = refl
strip_prefix-append (c ∷ p) t = ground (arith, strip_prefix-append p t)

In-any : (t : Text) (ts : List Text) → In t ts → any (text_eq t) ts ≡ true
In-any t [] m = absurd m
In-any t (x ∷ ts) (inl e) = ground (arith, e, text_eq_refl t)
In-any t (x ∷ ts) (inr m) = ground (arith, In-any t ts m)

is_valid_token_sound : (ts : List Text) (t : Text) → is_valid_token ts t ≡ true → (t ≢ []) × In t ts
unfolding is_valid_token
is_valid_token_sound ts [] h = absurd (ground (arith, h))
is_valid_token_sound ts (c ∷ t) h = (λ e. cc, text_eq-In (c ∷ t) ts h)

is_valid_token_complete :
    (ts : List Text) (t : Text) → t ≢ [] → In t ts → is_valid_token ts t ≡ true
unfolding is_valid_token
is_valid_token_complete ts [] n m = absurd (n refl)
is_valid_token_complete ts (c ∷ t) n m = In-any (c ∷ t) ts m

bearer_token_split :
    (header : Option Text)
    → bearer_token header ≢ []
    → header ≡ some (codes "Bearer " ++ bearer_token header)
unfolding bearer_token strip_prefix
bearer_token_split none n = absurd (n refl)
bearer_token_split (some h) n = elim (Option-cases (strip_prefix (codes "Bearer ") h)) [
  | inl e ↦ absurd (n (rw (e, bearer_token) refl))
  | inr (t, e) ↦ rw (e, bearer_token) (ap some (strip_prefix_split (codes "Bearer ") h t e))
]

authorizes_sound :
    (auth : AuthConfig) (header : Option Text)
    → authorizes auth header ≡ true
    → IsAuthorized auth header
unfolding authorizes
authorizes_sound auth header h = elim (Bool-cases auth.disabled) [
  | inl off ↦ inl off
  | inr on ↦ inr (
      let valid = checked auth.tokens (rw on at h) in
      let sound = is_valid_token_sound auth.tokens (bearer_token header) valid in
      (bearer_token header, bearer_token_split header sound.0, sound.0, sound.1))
]
  where
    checked :
        (tokens : List Text)
        → elim tokens as (λ x. Bool) [
          | [] ↦ false
          | t ∷ ts ↦ is_valid_token (t ∷ ts) (bearer_token header)
        ]
          ≡ true
        → is_valid_token tokens (bearer_token header) ≡ true
    checked [] e = absurd (ground (arith, e))
    checked (t ∷ tokens) e = e

authorizes_complete :
    (auth : AuthConfig) (header : Option Text)
    → IsAuthorized auth header
    → authorizes auth header ≡ true
unfolding authorizes
authorizes_complete auth header (inl off) = rw off refl
authorizes_complete auth header (inr (token, e, filled, m)) =
    let given : bearer_token header ≡ token =
      rw (e, bearer_token)
        (ap (λ o. unwrap_or o []) (strip_prefix-append (codes "Bearer ") token)) in
    let valid = is_valid_token_complete auth.tokens token filled m in
    elim (Bool-cases auth.disabled) [
      | inl off ↦ rw off refl
      | inr on ↦ rw on (checked auth.tokens m (rw given valid))
    ]
  where
    checked :
        (tokens : List Text)
        → In token tokens
        → is_valid_token tokens (bearer_token header) ≡ true
        → elim tokens as (λ x. Bool) [
          | [] ↦ false
          | t ∷ ts ↦ is_valid_token (t ∷ ts) (bearer_token header)
        ]
          ≡ true
    checked [] m v = absurd m
    checked (t ∷ tokens) m v = v

module _ {S A : Type 0} (auth : AuthConfig) (header : Option Text) (next : Handler S A)
    (s : S) where
  allowed : IsAuthorized auth header → require_auth auth header next s ≡ next s
  unfolding require_auth
  allowed h = rw (authorizes_complete auth header h) refl

  refused : ¬ IsAuthorized auth header → require_auth auth header next s ≡ (failed unauthorized, s)
  unfolding require_auth
  refused n = elim (Bool-cases (authorizes auth header)) [
    | inl e ↦ absurd (n (authorizes_sound auth header e))
    | inr e ↦ rw e refl
  ]

module _ {S A : Type 0} where
  abbrev pub IsGuarded :
      Option Bool → AuthConfig → Option Text → Handler S A → S → ApiResult A × S → Type 0
  IsGuarded limit auth header next s out =
      (limit ≢ some false → IsAuthorized auth header → out ≡ next s)
      × (limit ≢ some false → ¬ IsAuthorized auth header → out ≡ (failed unauthorized, s))
      × (limit ≡ some false → out ≡ (failed rate_limited, s))

  -- A protected route runs its handler exactly for the requests that the rate limiter lets through
  -- and that are authorized: authentication is off, or the Authorization header is `Bearer ` and a
  -- token of the configuration, not empty. Every other request is refused, 429 before 401, and
  -- leaves the state as it is.
  pub protected-IsGuarded :
      (limit : Option Bool) (auth : AuthConfig) (header : Option Text) (next : Handler S A) (s : S)
      → IsGuarded limit auth header next s (protected limit auth header next s)
  unfolding protected check_rate_limit
  protected-IsGuarded none auth header next s = (
    λ n. allowed auth header next s,
    λ n. refused auth header next s,
    λ e. absurd (ground (arith, e)),
  )
  protected-IsGuarded (some true) auth header next s = (
    λ n. allowed auth header next s,
    λ n. refused auth header next s,
    λ e. absurd (ground (arith, e)),
  )
  protected-IsGuarded (some false) auth header next s =
      (λ n. absurd (n refl), λ n. absurd (n refl), λ e. refl)
