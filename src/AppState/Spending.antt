-- ===== src/AppState/Spending.antt =====
-- How many times a run calls the cloud provider (src/handler.rs, through the layers).
use isartor.Common.{ℕ, suc, Option, List, [], ◌∷◌, ◌≡◌, ◌⊎◌, inl, inr, ◌∙◌}
use isartor.Http.{Response}
use isartor.AppState.{
  AppState, Call, Next, cloud, generate_embedding, sidecar_chat, embedded_classify,
  embedded_execute,
}

abbrev pub clouds : List Call → ℕ
clouds [] = 0
clouds (cloud events ∷ calls) = suc (clouds calls)
clouds (generate_embedding text ∷ calls) = clouds calls
clouds (sidecar_chat url request ∷ calls) = clouds calls
clouds (embedded_classify text ∷ calls) = clouds calls
clouds (embedded_execute text ∷ calls) = clouds calls

module _ {C E F : Type 0} (P : Option Response → Type 0) where
  -- The provider is not called, or the response has the property.
  abbrev pub Spent : AppState C E F → Option Response × AppState C E F → Type 0
  Spent before (response, after) = (clouds after.calls ≡ clouds before.calls) ⊎ P response

  abbrev pub Spends : Next C E F → Type 0
  Spends next = (request : _) (state : AppState C E F) → Spent state (next request state)

  pub Spent-after :
      (before middle : AppState C E F) (o : Option Response × AppState C E F)
      → clouds middle.calls ≡ clouds before.calls
      → Spent middle o
      → Spent before o
  Spent-after before middle o e (inl h) = inl (h ∙ e)
  Spent-after before middle o e (inr p) = inr p
