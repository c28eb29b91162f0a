-- ===== src/Orchestrator/Replay.antt =====
-- What a failed call of the cloud model leaves in the cache (src/pipeline/orchestrator.rs).
use isartor.Common.{ℕ, ◌<◌, Text, codes, Option, none, some, List, ◌++◌, ◌≡◌, refl, ap, ◌∙◌}
use isartor.Concurrency.{Limiter}
use isartor.Concurrency.Limit.{IsValid}
use isartor.Orchestrator.Context.{Result, ok, err, complex, AlgorithmSuite, PipelineConfig}
use isartor.Orchestrator.{execute_pipeline}
use isartor.Orchestrator.Answers.{
  Answers, Misses, not_embedded, not_found, not_searched, from_cache, locally, by_llm, llm_failed,
}
use isartor.Orchestrator.Requests.{Handled, execute_pipeline-Handled}

abbrev pub failure : Text → Text
failure e = codes "Error: External LLM unavailable — " ++ e

module _ {F S : Type 0} (zero_score : F) (fixed : ℕ → F → Text) (a : AlgorithmSuite F S)
    (cfg : PipelineConfig F) where
  Misses-vector :
      {store : S} {prompt : Text} {o : Option (List F)} {v : List F}
      → Misses zero_score fixed a cfg store prompt o
      → a.embed prompt ≡ ok v
      → o ≡ some v
  Misses-vector (not_embedded e) k = absurd cc
  Misses-vector (not_found e s) k = cc
  Misses-vector (not_searched e s) k = cc

  Answers-failed :
      {store : S} {prompt message : Text} {layer : ℕ} {after : S} {v : List F} {confidence : F}
      {e : Text}
      → Answers zero_score fixed a cfg store prompt layer message after
      → a.embed prompt ≡ ok v
      → a.search store v cfg.similarity_threshold ≡ ok none
      → a.classify prompt ≡ ok (complex, confidence)
      → ((docs : List Text) → a.complete prompt docs ≡ err e)
      → (layer ≡ 3) × (message ≡ failure e) × (after ≡ (a.insert store v (failure e)).0)
  Answers-failed (from_cache m f) e s c fail = absurd cc
  Answers-failed (locally m c' x) e s c fail = absurd cc
  Answers-failed (by_llm {docs = docs} m p d x) e s c fail = let f = fail docs in absurd cc
  Answers-failed (llm_failed {docs = docs} m p d x) e s c fail =
      let f = fail docs in let w = Misses-vector m e in (refl, cc, rw w cc)

  Misses-hit :
      {store : S} {prompt : Text} {o : Option (List F)} {v : List F} {found : Text} {similarity : F}
      → Misses zero_score fixed a cfg store prompt o
      → a.embed prompt ≡ ok v
      → a.search store v cfg.similarity_threshold ≡ ok (some (found, similarity))
      → ⊥
  Misses-hit (not_embedded e) k h = cc
  Misses-hit (not_found e s) k h = cc
  Misses-hit (not_searched e s) k h = cc

  Answers-found :
      {store : S} {prompt message : Text} {layer : ℕ} {after : S} {v : List F} {found : Text}
      {similarity : F}
      → Answers zero_score fixed a cfg store prompt layer message after
      → a.embed prompt ≡ ok v
      → a.search store v cfg.similarity_threshold ≡ ok (some (found, similarity))
      → (layer ≡ 1) × (message ≡ found)
  Answers-found (from_cache m f) e s = (refl, cc)
  Answers-found (locally m c' x) e s = absurd (Misses-hit m e s)
  Answers-found (by_llm {docs = docs} m p d x) e s = absurd (Misses-hit m e s)
  Answers-found (llm_failed {docs = docs} m p d x) e s = absurd (Misses-hit m e s)

module _ {F S : Type 0} (zero_score : F) (fixed : ℕ → F → Text) (a : AlgorithmSuite F S)
    (cfg : PipelineConfig F) (complete_later : Text → List Text → Result Text) where
  -- The same algorithms with another cloud model.
  abbrev pub suite_later : AlgorithmSuite F S
  suite_later = record a { complete = complete_later }

  -- A prompt that is embedded, that the cache misses and that the classifier finds complex, while the
  -- cloud model fails with `e`, is answered by layer 3 with the text of the error, and when the same
  -- prompt comes next, the cache answers it with this text, whatever the cloud model says by then. The
  -- premise on the store is that a search finds what was just inserted under the same vector; both
  -- times, the limiter is well-formed and below its limit.
  pub failure_replayed :
      (limiter later : Limiter) (held held' : ℕ) (store : S) (id id' prompt e : Text) (v : List F)
      (confidence similarity : F)
      → IsValid limiter
      → limiter.in_flight < limiter.concurrency_limit
      → IsValid later
      → later.in_flight < later.concurrency_limit
      → a.embed prompt ≡ ok v
      → a.search store v cfg.similarity_threshold ≡ ok none
      → a.classify prompt ≡ ok (complex, confidence)
      → ((docs : List Text) → a.complete prompt docs ≡ err e)
      → ((m : Text)
          → a.search (a.insert store v m).0 v cfg.similarity_threshold ≡ ok (some (m, similarity)))
      → (first : Handled zero_score fixed a cfg limiter store prompt
          (execute_pipeline zero_score fixed a cfg limiter held store id prompt))
        × (first.response.resolved_by_layer ≡ 3)
        × (first.response.message ≡ failure e)
        × (second : Handled zero_score fixed suite_later cfg later first.store' prompt
            (execute_pipeline zero_score fixed suite_later cfg later held' first.store' id' prompt))
        × (second.response.resolved_by_layer ≡ 1)
        × (second.response.message ≡ failure e)
  failure_replayed limiter later held held' store id id' prompt e v confidence similarity valid room
        valid' room' embeds misses complex' fails finds =
      let first =
        execute_pipeline-Handled zero_score fixed a cfg limiter held store id prompt valid room in
      let second =
        execute_pipeline-Handled zero_score fixed suite_later cfg later held' first.store' id'
          prompt valid' room' in
      let (third, said, stored) =
        Answers-failed zero_score fixed a cfg first.answered embeds misses complex' fails in
      let found : a.search first.store' v cfg.similarity_threshold
          ≡ ok (some (failure e, similarity)) =
        ap (λ s. a.search s v cfg.similarity_threshold) stored ∙ finds (failure e) in
      let (layer, message) =
        Answers-found zero_score fixed suite_later cfg second.answered embeds found in
      (first, third, said, second, layer, message)
