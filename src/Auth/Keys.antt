-- ===== src/Auth/Keys.antt =====
-- Who passes layer 0 (src/middleware/auth.rs).
use isartor.Common.{
  Text, codes, text_eq, text_eq_iff, text_eq_self, is_empty, strip_prefix, true, false, Bool-cases,
  Option-cases, Option, none, some, [], ◌∷◌, ◌++◌, ◌==◌, ==_iff, ◌≡◌, ◌↔◌, inl, inr, refl, ap, ◌∙◌,
  arith,
}
use isartor.Auth.{run_next, bearer_token, api_key, auth_middleware}

-- The key that a request presents: that of `X-API-Key` if it has the header, else that of a bearer token.
pub data Presents (header : Text → Option Text) (key : Text) : Type 0 where
  by_key : header (codes "X-API-Key") ≡ some key → Presents header key
  by_token :
      header (codes "X-API-Key") ≡ none
      → header (codes "authorization") ≡ some (codes "Bearer " ++ key)
      → Presents header key

strip_prefix-append : (p s : Text) → strip_prefix p (p ++ s) ≡ some s
strip_prefix-append [] s = refl
strip_prefix-append (c ∷ p) s =
    let same : (c == c) ≡ true = ground arith in rw (same, strip_prefix) (strip_prefix-append p s)

strip_prefix_sound : (p s t : Text) → strip_prefix p s ≡ some t → s ≡ p ++ t
strip_prefix_sound [] s t e = cc
strip_prefix_sound (c ∷ p) [] t e = absurd cc
strip_prefix_sound (c ∷ p) (d ∷ s) t e = elim (Bool-cases (c == d)) [
  | inr n ↦ let k = rw (n, strip_prefix) at e in absurd cc
  | inl h ↦
      let same = (==_iff c d).0 h in
      let rest = strip_prefix_sound p s t (rw (h, strip_prefix) at e) in cc
]

api_key-Presents :
    (header : Text → Option Text) (key : Text) → api_key header ≡ some key → Presents header key
unfolding api_key bearer_token
api_key-Presents header key e = elim (Option-cases (header (codes "X-API-Key"))) [
  | inr (k, h) ↦ let m = rw (h, api_key) at e in by_key (h ∙ m)
  | inl h ↦ elim (Option-cases (header (codes "authorization"))) [
    | inl k ↦ let m = rw (h, k, api_key, bearer_token) at e in absurd cc
    | inr (s, k) ↦
        let m = rw (h, k, api_key, bearer_token) at e in
        by_token h (k ∙ ap some (strip_prefix_sound (codes "Bearer ") s key m))
  ]
]

presented :
    {header : Text → Option Text} {key : Text} → Presents header key → api_key header ≡ some key
unfolding api_key bearer_token
presented (by_key h) = rw (h, api_key)
presented {key = key} (by_token h k) =
    rw (h, k, api_key, bearer_token) (strip_prefix-append (codes "Bearer ") key)

-- With a key configured, the next layer runs for exactly the requests that present this key: in `X-API-Key`,
-- or, if that header is missing, as a bearer token.
pub auth_middleware-Presents :
    (gateway_api_key : Text) (header : Text → Option Text)
    → is_empty gateway_api_key ≡ false
    → (auth_middleware (some gateway_api_key) header ≡ run_next) ↔ Presents header gateway_api_key
unfolding auth_middleware
auth_middleware-Presents g header n = (passes, admitted)
  where
    passes : auth_middleware (some g) header ≡ run_next → Presents header g
    passes e = elim (Option-cases (api_key header)) [
      | inl absent ↦ let m = rw (n, absent, auth_middleware) at e in absurd cc
      | inr (key, found) ↦ elim (Bool-cases (text_eq key g)) [
        | inr other ↦ let m = rw (n, found, other, auth_middleware) at e in absurd cc
        | inl same ↦ api_key-Presents header g (found ∙ ap some ((text_eq_iff key g).0 same))
      ]
    ]

    admitted : Presents header g → auth_middleware (some g) header ≡ run_next
    admitted p =
        let found = presented p in let same = text_eq_self g in rw (n, found, same, auth_middleware)
