-- ===== src/Compression/Stages/Repeats.antt =====
-- Instructions that a session repeats, through the whole pipeline of src/compression/optimize.rs.
use isartor.Common.{
  Text, text_eq_self, Bool, true, Option, none, some, ◌≡◌, ap, ◌∙◌, arith, if◌then◌else◌,
}
use isartor.Compression.Cache.{InstructionCache, get, set, check_and_update, hash_instructions}
use isartor.Compression.Cache.History.{get-set}
use isartor.Compression.Pipeline.{
  unchanged, CompressionPipeline, Progress, absorb, run_stages, execute, start, finish,
}
use isartor.Compression.Classifier.{instruction, classify, content_classifier}
use isartor.Compression.Dedup
use isartor.Compression.Dedup.{reference, replaced, dedup_stage}
use isartor.Compression.LogCrunch
use isartor.Compression.LogCrunch.{log_crunch_stage}
use isartor.Compression.Stages.{Externals, build_pipeline}
use isartor.Compression.Stages.Gate.{
  crunch_rest, rest_stages, build_pipeline-rest, run_stages_instruction,
}

module _ (x : Externals) (m : Bool) (scope text : Text) where
  open x use {to_lowercase, sha256, hex_encode}

  abbrev hash : Text
  hash = hash_instructions sha256 hex_encode text

  crunch_rest-cache :
      (o : Option Text) (p : Progress) (cache : InstructionCache)
      → (run_stages (crunch_rest x m) o p cache).1 ≡ cache
  unfolding crunch_rest run_stages LogCrunch.process
  crunch_rest-cache o p cache = ground arith

  dedup_first :
      (cache : InstructionCache)
      → get cache scope ≡ none
      → Dedup.process sha256 hex_encode (some scope) text cache
        ≡ (unchanged text, set cache scope hash 1)
  unfolding Dedup.process check_and_update
  dedup_first cache e = ground arith

  dedup_again :
      (cache : InstructionCache)
      → get cache scope ≡ some (hash, 1)
      → Dedup.process sha256 hex_encode (some scope) text cache
        ≡ (replaced text (reference hash 2), set cache scope hash 2)
  unfolding Dedup.process check_and_update
  dedup_again cache e = ground (arith, text_eq_self hash)

  abbrev pipeline : CompressionPipeline
  pipeline = build_pipeline x true m

  abbrev gated : Progress
  gated = absorb (content_classifier to_lowercase) (unchanged text) (start text)

  execute_rest :
      (cache : InstructionCache)
      → classify to_lowercase text ≡ instruction
      → run_stages pipeline (some scope) (start text) cache
        ≡ run_stages (rest_stages x true m) (some scope) gated cache
  execute_rest cache i =
      ap (λ p. run_stages p (some scope) (start text) cache) (build_pipeline-rest x true m)
      ∙ run_stages_instruction x (rest_stages x true m) (some scope) (start text) cache i

  first_cache :
      (cache : InstructionCache)
      → get cache scope ≡ none
      → (run_stages (rest_stages x true m) (some scope) gated cache).1 ≡ set cache scope hash 1
  unfolding rest_stages run_stages absorb
  first_cache cache e =
      rw (dedup_first cache e) (crunch_rest-cache (some scope) _ (set cache scope hash 1))

  second_run :
      (cache : InstructionCache)
      → get cache scope ≡ some (hash, 1)
      → (finish (run_stages (rest_stages x true m) (some scope) gated cache).0).text
        ≡ reference hash 2
  unfolding rest_stages run_stages absorb
  second_run cache e = rw (dedup_again cache e)

  -- A session that sends an instruction for the first time, and then the same one again, gets the
  -- reference to its hash in its place, whatever the other sessions did to the cache in between and
  -- whether or not the later stage is enabled.
  pub repeat_replaced :
      (cache between : InstructionCache)
      → classify to_lowercase text ≡ instruction
      → get cache scope ≡ none
      → get between scope ≡ get (execute pipeline (some scope) text cache).1 scope
      → (execute pipeline (some scope) text between).0.text ≡ reference hash 2
  unfolding execute
  repeat_replaced cache between i e kept =
      let first : (run_stages pipeline (some scope) (start text) cache).1 ≡ set cache scope hash 1 =
        ap (λ (r : Progress × InstructionCache). r.1) (execute_rest cache i)
        ∙ first_cache cache e in
      let found : get between scope ≡ some (hash, 1) =
        kept
        ∙ (ap (λ c. get c scope) first
            ∙ (get-set cache scope scope hash 1
                ∙ ap (λ b. if b then some (hash, 1) else get cache scope) (text_eq_self scope))) in
      ap (λ (r : Progress × InstructionCache). (finish r.0).text) (execute_rest between i)
      ∙ second_run between found
