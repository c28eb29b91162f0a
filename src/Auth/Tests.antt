-- ===== src/Auth/Tests.antt =====
-- Runs of layer 0.
use isartor.Common.{Text, codes, text_eq, if◌then◌else◌, Option, none, some, ◌≡◌, ◌↔◌, refl}
use isartor.Auth.{run_next, unauthorized, bearer_token, api_key, auth_middleware}
use isartor.Auth.Keys.{Presents, auth_middleware-Presents}

abbrev bearer : Text → Option Text
bearer name = if text_eq name (codes "authorization") then some (codes "Bearer k") else none

-- A wrong key is not made good by a right token.
abbrev both : Text → Option Text
both name =
    if text_eq name (codes "X-API-Key") then some (codes "wrong") else some (codes "Bearer k")

bearer_runs : auth_middleware (some (codes "k")) bearer ≡ run_next
unfolding auth_middleware api_key bearer_token
bearer_runs = refl

both_runs : auth_middleware (some (codes "k")) both ≡ unauthorized
unfolding auth_middleware api_key bearer_token
both_runs = refl

auth_middleware-Presents_example :
    (auth_middleware (some (codes "k")) bearer ≡ run_next) ↔ Presents bearer (codes "k")
auth_middleware-Presents_example = auth_middleware-Presents (codes "k") bearer refl
