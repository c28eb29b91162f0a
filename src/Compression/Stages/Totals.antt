-- ===== src/Compression/Stages/Totals.antt =====
-- The bytes saved by the pipeline of src/compression/optimize.rs.
use native.Mathlib.Nat.{pow-suc}
use isartor.Common.{
  ℕ, zero, suc, ◌+◌, ◌*◌, ◌/◌, ◌%◌, ◌^◌, ◌≤◌, ◌<◌, Text, codes, byte_len, byte_len-append, decimal,
  decimal_from, Bool, true, false, Option, none, some, [], ◌∷◌, ◌++◌, ◌≡◌, arith, inl, inr,
  Option-cases,
}
use isartor.Compression.Cache.{InstructionCache, hash_instructions, check_and_update, u32_mod}
use isartor.Compression.Pipeline.{Progress, run_stages, execute, start}
use isartor.Compression.Pipeline.Bytes.{IsHonest, IsBalanced, run_stages-IsBalanced}
use isartor.Compression.Classifier.{classify}
use isartor.Compression.Dedup
use isartor.Compression.Dedup.{reference, dedup_stage}
use isartor.Compression.LogCrunch
use isartor.Compression.LogCrunch.{minify, log_crunch_stage}
use isartor.Compression.LogCrunch.Bytes.{minify_saved}
use isartor.Compression.Stages.{Externals, build_pipeline}
use isartor.Compression.Stages.Gate.{
  ContentKind-cases, crunch_rest, rest_stages, build_pipeline-rest, instruction-long,
  run_stages_instruction, run_stages_conversational,
}

byte_len-decimal_from :
    (k fuel n : ℕ) (acc : Text)
    → n < 10 ^ suc k
    → byte_len (decimal_from fuel n acc) ≤ suc k + byte_len acc
unfolding decimal_from
byte_len-decimal_from k zero n acc h = omega arith
byte_len-decimal_from zero (suc fuel) n acc h = ground arith
byte_len-decimal_from (suc k) (suc fuel) n acc h =
    let wide : 10 ^ suc (suc k) ≡ 10 ^ suc k * 10 = pow-suc 10 (suc k) in
    let less : n / 10 < 10 ^ suc k = omega arith in
    ground (arith, byte_len-decimal_from k fuel (n / 10) ((48 + n % 10) ∷ acc))

byte_len-decimal-le : (n : ℕ) → n < u32_mod → byte_len (decimal n) ≤ 10
unfolding decimal
byte_len-decimal-le n h = omega (arith, byte_len-decimal_from 9 (suc n) n [] (omega arith))

log_crunch-IsHonest :
    (scope : Option Text) (text : Text) (cache : InstructionCache)
    → IsHonest text (LogCrunch.process scope text cache).0
unfolding LogCrunch.process
log_crunch-IsHonest scope text cache = ground (arith, minify_saved text)

turn-lt :
    (cache : InstructionCache) (scope hash : Text) {turn : ℕ}
    → (check_and_update cache scope hash).1 ≡ some turn
    → turn < u32_mod
unfolding check_and_update
turn-lt cache scope hash e = ground arith

byte_len-reference-le :
    (hash : Text) (turn : ℕ)
    → byte_len hash ≡ 16
    → turn < u32_mod
    → byte_len (reference hash turn) ≤ 200
unfolding reference
byte_len-reference-le hash turn h t =
    let tail = codes "). Follow the same instructions as before.]" in
    let rest = codes ", turn=" ++ (decimal turn ++ tail) in
    omega (
      arith,
      byte_len-append (codes "[Context instructions unchanged since turn 1 (hash=") (hash ++ rest),
      byte_len-append hash rest,
      byte_len-append (codes ", turn=") (decimal turn ++ tail),
      byte_len-append (decimal turn) tail,
      byte_len-decimal-le turn t,
    )

module _ (x : Externals) where
  open x use {to_lowercase, sha256, hex_encode}

  -- The hexadecimal form of eight bytes has sixteen ASCII characters.
  abbrev pub HashIsShort : Type 0
  HashIsShort = (text : Text) → byte_len (hash_instructions sha256 hex_encode text) ≡ 16

  dedup-IsHonest :
      HashIsShort
      → (scope : Option Text) (text : Text) (cache : InstructionCache) → 200 ≤ byte_len text
      → IsHonest text (Dedup.process sha256 hex_encode scope text cache).0
  unfolding Dedup.process
  dedup-IsHonest short none text cache long = λ m. cc
  dedup-IsHonest short (some scope) text cache long =
      let hash = hash_instructions sha256 hex_encode text in
      elim (Option-cases (check_and_update cache scope hash).1) [
        | inl new ↦ rw (new, Dedup.process) (λ m. cc)
        | inr (turn, seen) ↦
            rw (seen, Dedup.process)
              (λ m. omega (
                arith,
                byte_len-reference-le hash turn (short text) (turn-lt cache scope hash seen),
              ))
      ]

  crunch_rest-IsBalanced :
      (size : ℕ) (m : Bool) (scope : Option Text) (p : Progress) (cache : InstructionCache)
      → IsBalanced size p
      → IsBalanced size (run_stages (crunch_rest x m) scope p cache).0
  unfolding crunch_rest
  crunch_rest-IsBalanced size true scope p cache b =
      run_stages-IsBalanced size log_crunch_stage [] scope p cache
        (log_crunch-IsHonest scope p.current_text cache) (λ p' c' b'. unfold run_stages in b') b
  crunch_rest-IsBalanced size false scope p cache b = unfold run_stages in b

  rest_stages-IsBalanced :
      HashIsShort
      → (size : ℕ) (d m : Bool) (scope : Option Text) (p : Progress) (cache : InstructionCache)
      → 200 ≤ byte_len p.current_text
      → IsBalanced size p
      → IsBalanced size (run_stages (rest_stages x d m) scope p cache).0
  unfolding rest_stages
  rest_stages-IsBalanced short size true m scope p cache long b =
      run_stages-IsBalanced size (dedup_stage sha256 hex_encode) (crunch_rest x m) scope p cache
        (dedup-IsHonest short scope p.current_text cache long)
        (λ p' c' b'. crunch_rest-IsBalanced size m scope p' c' b') b
  rest_stages-IsBalanced short size false m scope p cache long b =
      crunch_rest-IsBalanced size m scope p cache b

  -- The text that comes out and the bytes reported as saved add up to the text that went in, whatever
  -- the flags, the session and the cache: no stage of the pipeline lets a text grow unnoticed. The
  -- premise is that a hash is sixteen bytes long, which holds of eight bytes in hexadecimal.
  pub execute_saved :
      HashIsShort
      → (d m : Bool) (scope : Option Text) (text : Text) (cache : InstructionCache)
      → let o = (execute (build_pipeline x d m) scope text cache).0 in
        byte_len o.text + o.total_bytes_saved ≡ byte_len text
  unfolding execute
  execute_saved short d m scope text cache =
      rw (build_pipeline-rest x d m) (elim (ContentKind-cases (classify to_lowercase text)) [
        | inl i ↦ rw (run_stages_instruction x (rest_stages x d m) scope (start text) cache i) (
            rest_stages-IsBalanced short (byte_len text) d m scope _ cache
              (instruction-long x text i) (omega arith))
        | inr c ↦
            rw (run_stages_conversational x (rest_stages x d m) scope (start text) cache c)
              (omega arith)
      ])
