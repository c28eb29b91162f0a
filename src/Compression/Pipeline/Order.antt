-- ===== src/Compression/Pipeline/Order.antt =====
-- Order and short circuit in the executor of src/compression/pipeline.rs.
use mathlib.Core.List.{append-nil}
use isartor.Common.{
  codes, join, is_empty, not, ◌+◌, ℕ, Text, Bool, true, false, if◌then◌else◌, Option, List, [], ◌∷◌,
  ◌++◌, ◌≡◌, refl, ap, arith,
}
use isartor.Compression.Cache.{InstructionCache}
use isartor.Compression.Pipeline.{
  StageReport, report, StageOutput, CompressionStage, CompressionPipeline, Progress, absorb,
  run_stages, execute, start, finish,
}

-- The stage short-circuits at the text and the cache that have been reached.
abbrev pub StopsAt : CompressionStage → Option Text → Progress × InstructionCache → Type 0
StopsAt stage scope (p, cache) = (stage.process scope p.current_text cache).0.short_circuit ≡ true

branch :
    (stage : CompressionStage) (scope : Option Text) (b : Bool)
    (stopped reached long short : Progress × InstructionCache)
    → (StopsAt stage scope reached → long ≡ short)
    → StopsAt stage scope (if b then stopped else reached)
    → (if b then stopped else long) ≡ (if b then stopped else short)
branch stage scope true stopped reached long short f h = refl
branch stage scope false stopped reached long short f h = f h

run_stages-Stops :
    (before after : CompressionPipeline) (stage : CompressionStage) (scope : Option Text)
    (p : Progress) (cache : InstructionCache)
    → StopsAt stage scope (run_stages before scope p cache)
    → run_stages (before ++ stage ∷ after) scope p cache
      ≡ run_stages (before ++ stage ∷ []) scope p cache
unfolding run_stages
run_stages-Stops [] after stage scope p cache stops = rw stops
run_stages-Stops (s ∷ before) after stage scope p cache stops =
    let (output, cache') = s.process scope p.current_text cache in
    let p' = absorb s output p in
    branch stage scope output.short_circuit (p', cache') (run_stages before scope p' cache')
      (run_stages (before ++ stage ∷ after) scope p' cache')
      (run_stages (before ++ stage ∷ []) scope p' cache')
      (run_stages-Stops before after stage scope p' cache') stops

-- The stages after one that short-circuits, at the text and the cache that the stages before it leave,
-- are not run: the
-- output, the reports and the cache are those of the pipeline that ends with it, whatever stands
-- before it.
pub execute-Stops :
    (before after : CompressionPipeline) (stage : CompressionStage) (scope : Option Text)
    (text : Text) (cache : InstructionCache)
    → StopsAt stage scope (run_stages before scope (start text) cache)
    → execute (before ++ stage ∷ after) scope text cache
      ≡ execute (before ++ stage ∷ []) scope text cache
unfolding execute
execute-Stops before after stage scope text cache stops =
    ap (λ (r : Progress × InstructionCache). (finish r.0, r.1))
      (run_stages-Stops before after stage scope (start text) cache stops)

-- What the reports say of the stages that modified the text.
abbrev pub saved_by : List StageReport → ℕ
saved_by [] = 0
saved_by (r ∷ rs) = if r.modified then r.bytes_saved + saved_by rs else saved_by rs

abbrev pub modifiers : List StageReport → List Text
modifiers [] = []
modifiers (r ∷ rs) = if r.modified then r.name ∷ modifiers rs else modifiers rs

saved_by-append : (xs ys : List StageReport) → saved_by (xs ++ ys) ≡ saved_by xs + saved_by ys
saved_by-append [] ys = omega arith
saved_by-append (r ∷ xs) ys = ground (arith, saved_by-append xs ys)

modifiers-append : (xs ys : List StageReport) → modifiers (xs ++ ys) ≡ modifiers xs ++ modifiers ys
modifiers-append [] ys = refl
modifiers-append (r ∷ xs) ys = ground (arith, modifiers-append xs ys)

is_empty-snoc : (xs : List Text) (x : Text) → is_empty (xs ++ x ∷ []) ≡ false
is_empty-snoc [] x = refl
is_empty-snoc (y ∷ xs) x = refl

record Agrees (p : Progress) : Type 0 where
  saved : p.total_saved ≡ saved_by p.reports
  parts : p.strategy_parts ≡ modifiers p.reports
  touched : p.any_modified ≡ not (is_empty p.strategy_parts)

absorb-Agrees :
    (stage : CompressionStage) (o : StageOutput) (p : Progress)
    → Agrees p
    → Agrees (absorb stage o p)
unfolding absorb
absorb-Agrees stage o p a =
    let sum = saved_by-append p.reports (report stage o ∷ []) in
    let names = modifiers-append p.reports (report stage o ∷ []) in
    record {
      saved = ground arith;
      parts = ground (arith, append-nil p.strategy_parts, append-nil (modifiers p.reports));
      touched = ground (arith, is_empty-snoc p.strategy_parts stage.name);
    }

Agrees-if :
    (b : Bool) (x y : Progress × InstructionCache)
    → Agrees x.0
    → Agrees y.0
    → Agrees (if b then x else y).0
Agrees-if true x y h k = h
Agrees-if false x y h k = k

run_stages-Agrees :
    (pipeline : CompressionPipeline) (scope : Option Text) (p : Progress) (cache : InstructionCache)
    → Agrees p
    → Agrees (run_stages pipeline scope p cache).0
unfolding run_stages
run_stages-Agrees [] scope p cache a = a
run_stages-Agrees (s ∷ rest) scope p cache a =
    let (output, cache') = s.process scope p.current_text cache in
    let absorbed = absorb-Agrees s output p a in
    Agrees-if output.short_circuit (absorb s output p, cache')
      (run_stages rest scope (absorb s output p) cache') absorbed
      (run_stages-Agrees rest scope (absorb s output p) cache' absorbed)

-- The telemetry of any pipeline agrees with its reports: the total is the sum of the bytes that the
-- stages which modified the text report, the strategy is their names joined in order, or `none`, and
-- the output counts as modified exactly if there is such a stage.
pub execute-stages :
    (pipeline : CompressionPipeline) (scope : Option Text) (text : Text) (cache : InstructionCache)
    → let o = (execute pipeline scope text cache).0 in
      (o.total_bytes_saved ≡ saved_by o.stages)
      × (o.strategy ≡ (
          if is_empty (modifiers o.stages)
          then codes "none"
          else join (codes "+") (modifiers o.stages)))
      × (o.modified ≡ not (is_empty (modifiers o.stages)))
unfolding execute
execute-stages pipeline scope text cache =
    let a = run_stages-Agrees pipeline scope (start text) cache start-Agrees in
    (a.saved, rw a.parts, rw a.parts at a.touched)
  where
    start-Agrees : Agrees (start text)
    start-Agrees = record { saved = refl; parts = refl; touched = refl }
