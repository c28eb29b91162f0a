-- ===== src/Triage/Spending.antt =====
-- Layer 2 does not call the cloud provider itself (src/middleware/slm_triage.rs).
use isartor.Common.{
  ℕ, Text, Bool, true, false, Option, none, some, Option-cases, List, ◌≡◌, inl, inr, refl, ◌∙◌,
  if◌then◌else◌,
}
use isartor.Prompt.{extract_semantic_key}
use isartor.Config.{AppConfig}
use isartor.Http.{Request, Response}
use isartor.AppState.{AppState, Outside, Next}
use isartor.AppState.Spending.{clouds, Spent, Spends, Spent-after}
use isartor.Triage.{
  answer_quality_ok, is_deflectable, local_answer, slm_triage_middleware, guarded, deflected,
  triaged, with_body,
}
use isartor.Triage.Answers.{InferenceEngineMode-cases}

module _ {V C E F : Type 0} (out : Outside V C E F) (config : AppConfig) where
  open out use {embedded_classifier}

  clouds-is_deflectable :
      (prompt : Text) (state : AppState C E F)
      → clouds (is_deflectable out config prompt state).1.calls ≡ clouds state.calls
  unfolding is_deflectable
  clouds-is_deflectable prompt state = elim (InferenceEngineMode-cases config.inference_engine) [
    | inl h ↦ rw (h, is_deflectable) refl
    | inr h ↦ elim (Option-cases embedded_classifier) [
      | inl k ↦ rw (h, k, is_deflectable) refl
      | inr (c, k) ↦ rw (h, k, is_deflectable) refl
    ]
  ]

  clouds-local_answer :
      (prompt : Text) (state : AppState C E F)
      → clouds (local_answer out config prompt state).1.calls ≡ clouds state.calls
  unfolding local_answer
  clouds-local_answer prompt state = elim (InferenceEngineMode-cases config.inference_engine) [
    | inl h ↦ rw (h, local_answer) refl
    | inr h ↦ elim (Option-cases embedded_classifier) [
      | inl k ↦ rw (h, k, local_answer) refl
      | inr (c, k) ↦ rw (h, k, local_answer) refl
    ]
  ]

  module _ (P : Option Response → Type 0) (next : Next C E F) (spends : Spends P next)
      (request : Request) where
    guarded-Spent :
        (answer model : Text) (before state : AppState C E F) (ok : Bool)
        → clouds state.calls ≡ clouds before.calls
        → Spent P before (guarded out config next request answer model state ok)
    guarded-Spent answer model before state true e = inl e
    guarded-Spent answer model before state false e =
        Spent-after P before state (next request state) e (spends request state)

    deflected-Spent :
        (before : AppState C E F) (o : Option (Text × Text) × AppState C E F)
        → clouds o.1.calls ≡ clouds before.calls
        → Spent P before (deflected out config next request o)
    deflected-Spent before (none, state) e =
        Spent-after P before state (next request state) e (spends request state)
    deflected-Spent before (some (answer, model), state) e =
        guarded-Spent answer model before state (answer_quality_ok out answer) e

    triaged-Spent :
        (prompt : Text) (before : AppState C E F) (o : Bool × AppState C E F)
        → clouds o.1.calls ≡ clouds before.calls
        → Spent P before (triaged out config next request prompt o)
    triaged-Spent prompt before (false, state) e =
        Spent-after P before state (next request state) e (spends request state)
    triaged-Spent prompt before (true, state) e =
        deflected-Spent before (local_answer out config prompt state)
          (clouds-local_answer prompt state ∙ e)

    with_body-Spent :
        (state : AppState C E F) (body : Option (List ℕ))
        → Spent P state (with_body out config next request state body)
    with_body-Spent state none = inl refl
    with_body-Spent state (some body) =
        let prompt =
          extract_semantic_key out.host.json out.host.from_slice out.host.from_utf8_lossy body in
        triaged-Spent prompt state (is_deflectable out config prompt state)
          (clouds-is_deflectable prompt state)

    pub slm_triage_middleware-Spent :
        (state : AppState C E F)
        → Spent P state (slm_triage_middleware out config next request state)
    unfolding slm_triage_middleware
    slm_triage_middleware-Spent state = go config.enable_slm_router
      where
        go :
            (enabled : Bool)
            → Spent P state (
                if enabled
                then with_body out config next request state request.buffered_body
                else next request state)
        go true = with_body-Spent state request.buffered_body
        go false = spends request state
