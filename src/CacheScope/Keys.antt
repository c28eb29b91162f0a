-- ===== src/CacheScope/Keys.antt =====
-- Which requests share a key of the exact cache (src/core/cache_scope.rs).
use isartor.Common.{Text, codes, none, some, [], ◌∷◌, ◌++◌, length, ◌≡◌, ◌↔◌, refl, ap, arith}
use isartor.CacheScope.{build_exact_cache_input}

append_cancel_front : (p : Text) (s t : Text) → p ++ s ≡ p ++ t → s ≡ t
append_cancel_front [] s t e = e
append_cancel_front (c ∷ p) s t e = append_cancel_front p s t cc

append_split : (p q : Text) (s t : Text) → length p ≡ length q → p ++ s ≡ q ++ t → (p ≡ q) × (s ≡ t)
append_split [] [] s t l e = (refl, e)
append_split [] (d ∷ q) s t l e = absurd (omega arith)
append_split (c ∷ p) [] s t l e = absurd (omega arith)
append_split (c ∷ p) (d ∷ q) s t l e =
    let (h, k) = append_split p q s t (omega arith) cc in let head : c ≡ d = cc in (cc, k)

-- In one namespace, two requests of sessions have the same input to the key's hash only if they
-- belong to the same session and have the same material. The premise on the lengths holds of scopes,
-- which are SHA-256 digests in hexadecimal.
pub build_exact_cache_input_separates :
    (namespace scope scope' material material' : Text)
    → length scope ≡ length scope'
    → build_exact_cache_input namespace material (some scope)
      ≡ build_exact_cache_input namespace material' (some scope')
    → (scope ≡ scope') × (material ≡ material')
unfolding build_exact_cache_input
build_exact_cache_input_separates namespace scope scope' material material' l e =
    let tails = append_cancel_front (codes "|session:") _ _ (append_cancel_front namespace _ _ e) in
    let (same, rest) = append_split scope scope' _ _ l tails in
    (same, append_cancel_front (codes "|") _ _ rest)

-- In one namespace, a request without a session has the same input to the key's hash as a request of a
-- session exactly if its material is `session:`, the scope, a bar and the other's material: a material that
-- does not begin with `session:` never meets a session's entry, but the two formats are not told apart.
pub build_exact_cache_input_collides :
    (namespace scope material material' : Text)
    → (build_exact_cache_input namespace material none
        ≡ build_exact_cache_input namespace material' (some scope))
      ↔ (material ≡ codes "session:" ++ (scope ++ (codes "|" ++ material')))
unfolding build_exact_cache_input
build_exact_cache_input_collides namespace scope material material' = (
  λ e. append_cancel_front (codes "|") _ _ (append_cancel_front namespace _ _ e),
  λ e. ap (λ (t : Text). namespace ++ (codes "|" ++ t)) e,
)
