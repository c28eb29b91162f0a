-- ===== src/Triage/Answers.antt =====
-- When layer 2 answers a request itself (src/middleware/slm_triage.rs).
use isartor.Common.{
  ℕ, Text, Bool, true, false, Option, none, some, Option-cases, List, ◌≡◌, ◌⊎◌, inl, inr, refl, ap,
  ◌∙◌, if◌then◌else◌,
}
use isartor.Prompt.{extract_semantic_key}
use isartor.Config.{AppConfig, InferenceEngineMode, sidecar, embedded}
use isartor.Http.{Request, Response}
use isartor.AppState.{AppState, Outside, Call, Next}
use isartor.Triage.{
  answer_quality_ok, answered, is_deflectable, local_answer, slm_triage_middleware, guarded,
  deflected, triaged, with_body,
}

pub InferenceEngineMode-cases : (e : InferenceEngineMode) → (e ≡ sidecar) ⊎ (e ≡ embedded)
InferenceEngineMode-cases sidecar = inl refl
InferenceEngineMode-cases embedded = inr refl

module _ {V C E F : Type 0} (out : Outside V C E F) (config : AppConfig) where
  open out use {embedded_classifier}

  abbrev pub with_calls : List Call → AppState C E F → AppState C E F
  with_calls calls state = record state { calls = calls }

  is_deflectable_calls :
      (prompt : Text) (state : AppState C E F)
      → (is_deflectable out config prompt state).1
        ≡ with_calls (is_deflectable out config prompt state).1.calls state
  unfolding is_deflectable
  is_deflectable_calls prompt state = elim (InferenceEngineMode-cases config.inference_engine) [
    | inl h ↦ rw (h, is_deflectable) refl
    | inr h ↦ elim (Option-cases embedded_classifier) [
      | inl k ↦ rw (h, k, is_deflectable) refl
      | inr (c, k) ↦ rw (h, k, is_deflectable) refl
    ]
  ]

  local_answer_calls :
      (prompt : Text) (state : AppState C E F)
      → (local_answer out config prompt state).1
        ≡ with_calls (local_answer out config prompt state).1.calls state
  unfolding local_answer
  local_answer_calls prompt state = elim (InferenceEngineMode-cases config.inference_engine) [
    | inl h ↦ rw (h, local_answer) refl
    | inr h ↦ elim (Option-cases embedded_classifier) [
      | inl k ↦ rw (h, k, local_answer) refl
      | inr (c, k) ↦ rw (h, k, local_answer) refl
    ]
  ]

  module _ (next : Next C E F) (request : Request) (prompt : Text) (state : AppState C E F) where
    abbrev pub classified : Bool × AppState C E F
    classified = is_deflectable out config prompt state

    abbrev pub attempted : Option (Text × Text) × AppState C E F
    attempted = local_answer out config prompt classified.1

    -- No good answer: the prompt is not simple enough, or the local model gives no answer, or the quality
    -- guard rejects it.
    pub data NoGoodAnswer : Type 0 where
      not_simple : classified.0 ≡ false → NoGoodAnswer
      no_answer : attempted.0 ≡ none → NoGoodAnswer
      rejected :
          (answer model : Text)
          → attempted.0 ≡ some (answer, model)
          → answer_quality_ok out answer ≡ false
          → NoGoodAnswer

    -- Either the local model gives a good answer to a simple prompt and this is the response, or it does not
    -- and the request goes on. The state has changed in the calls alone.
    pub data Triaged : Option Response × AppState C E F → Type 0 where
      answers :
          (answer model : Text) (calls : List Call)
          → classified.0 ≡ true
          → attempted.0 ≡ some (answer, model)
          → answer_quality_ok out answer ≡ true
          → Triaged (some (answered out config next request answer model), with_calls calls state)
      goes_on : (calls : List Call) → NoGoodAnswer → Triaged (next request (with_calls calls state))

    attempted_calls : attempted.1 ≡ with_calls attempted.1.calls state
    attempted_calls =
        local_answer_calls prompt classified.1
        ∙ ap (with_calls attempted.1.calls) (is_deflectable_calls prompt state)

    after_attempt : NoGoodAnswer → Triaged (next request attempted.1)
    after_attempt n = rw attempted_calls (goes_on attempted.1.calls n)

    guarded-Triaged :
        (answer model : Text) (ok : Bool)
        → classified.0 ≡ true
        → attempted.0 ≡ some (answer, model)
        → answer_quality_ok out answer ≡ ok
        → Triaged (guarded out config next request answer model attempted.1 ok)
    guarded-Triaged answer model true c a q =
        rw attempted_calls (answers answer model attempted.1.calls c a q)
    guarded-Triaged answer model false c a q = after_attempt (rejected answer model a q)

    deflected-Triaged :
        (o : Option (Text × Text))
        → classified.0 ≡ true
        → attempted.0 ≡ o
        → Triaged (deflected out config next request (o, attempted.1))
    deflected-Triaged none c a = after_attempt (no_answer a)
    deflected-Triaged (some (answer, model)) c a =
        guarded-Triaged answer model (answer_quality_ok out answer) c a refl

    triaged-Triaged :
        (simple : Bool)
        → classified.0 ≡ simple
        → Triaged (triaged out config next request prompt (simple, classified.1))
    triaged-Triaged true c = deflected-Triaged attempted.0 c refl
    triaged-Triaged false c =
        rw (is_deflectable_calls prompt state) (goes_on classified.1.calls (not_simple c))

  -- With the router enabled, a buffered request is answered by layer 2 exactly if the local model finds
  -- its prompt simple and gives an answer that passes the quality guard; else the rest of the stack gets
  -- it unchanged. No cache and no counter of the provider is touched by layer 2.
  pub slm_triage_middleware-Triaged :
      (next : Next C E F) (request : Request) (state : AppState C E F) (body : List ℕ)
      → config.enable_slm_router ≡ true
      → request.buffered_body ≡ some body
      → Triaged next request
          (extract_semantic_key out.host.json out.host.from_slice out.host.from_utf8_lossy body)
          state
          (slm_triage_middleware out config next request state)
  unfolding slm_triage_middleware
  slm_triage_middleware-Triaged next request state body e b =
      let text =
        extract_semantic_key out.host.json out.host.from_slice out.host.from_utf8_lossy body in
      let start = with_body out config next request state in
      let computed : slm_triage_middleware out config next request state
          ≡ triaged out config next request text (is_deflectable out config text state) =
        ap (λ (x : Bool). if x then start request.buffered_body else next request state) e
        ∙ ap start b in
      rw computed
        (triaged-Triaged next request text state (is_deflectable out config text state).0 refl)
