-- ===== src/Compression/Tests.antt =====
-- Concrete runs of the compression stages (src/compression).
use isartor.Common.{
  ℕ, zero, suc, ◌+◌, ◌*◌, ◌/◌, ◌%◌, Text, codes, byte_len, to_ascii_lowercase, length, take, lines,
  join, true, reverse, none, some, List, [], ◌∷◌, ◌++◌, ◌≡◌, refl, arith,
}
use isartor.Compression.Cache.{
  InstructionCache, get, set, check_and_update, evict_if_needed, hash_instructions, remove,
}
use isartor.Compression.Cache.History.{after, streak, check_and_update-streak, Calls, reply}
use isartor.Compression.Pipeline.{
  CompressionPipeline, CompressionOutput, absorb, run_stages, start, execute,
}
use isartor.Compression.Pipeline.Order.{StopsAt, execute-Stops}
use isartor.Compression.Classifier
use isartor.Compression.Dedup
use isartor.Compression.Classifier.{content_classifier, classify, instruction, conversational}
use isartor.Compression.Dedup.{reference, dedup_stage}
use isartor.Compression.LogCrunch.{
  minify, crunch, crunch_from, crunch_start, crunch_line, crunch_tests, log_crunch_stage,
}
use isartor.Compression.LogCrunch.Stable.{unclosed_comment, IsClean}
use isartor.Compression.LogCrunch.Again.{chomp, minify-minify}
use isartor.Compression.Stages.{Externals, build_pipeline}
use isartor.Compression.Stages.Totals.{HashIsShort, execute_saved}
use isartor.Compression.Stages.Repeats.{repeat_replaced}

-- A digest of 32 bytes that stands in for SHA-256, and an encoding by two digits a byte.
abbrev digest : Text → List ℕ
digest text = go 32
  where
    go : ℕ → List ℕ
    go zero = []
    go (suc n) = length text % 256 ∷ go n

abbrev two_digits : List ℕ → Text
two_digits [] = []
two_digits (b ∷ bs) = (65 + b / 16 % 16) ∷ (65 + b % 16) ∷ two_digits bs

abbrev externals : Externals
externals = record { to_lowercase = to_ascii_lowercase; sha256 = digest; hex_encode = two_digits }

digit-lt : (n : ℕ) → byte_len ((65 + n % 16) ∷ []) ≡ 1
digit-lt n = ground arith

byte_len-two_digits : (bs : List ℕ) → byte_len (two_digits bs) ≡ 2 * length bs
byte_len-two_digits [] = refl
byte_len-two_digits (b ∷ bs) = omega (arith, digit-lt (b / 16), digit-lt b, byte_len-two_digits bs)

externals-HashIsShort : HashIsShort externals
unfolding hash_instructions
externals-HashIsShort text = byte_len-two_digits (take 8 (digest text))

abbrev prompt : Text
prompt =
    codes "You are a helpful assistant for this repository."
    ++ (codes
          "\n\n\n-----\n<!-- internal -->\nNever edit generated files. Keep each change small and say why it is made."
        ++ codes
            "\nRun the tests before you commit, and quote the failing test when there is one. Answer in English.")

prompt-instruction : classify to_ascii_lowercase prompt ≡ instruction
unfolding classify
prompt-instruction = refl

greeting-conversational : classify to_ascii_lowercase (codes "Hello there") ≡ conversational
unfolding classify
greeting-conversational = refl

-- The rule, the comment and one of the two blank lines go.
minify_runs : minify (codes "a\n\n\n-----\n<!-- x -->\nb") ≡ (codes "a\n\nb", 18)
unfolding minify crunch crunch_from crunch_line crunch_tests
minify_runs = refl

-- A comment that is closed with text behind it swallows the next line.
minify_swallows : minify (codes "<!-- x --> a\nb") ≡ ([], 14)
unfolding minify crunch crunch_from crunch_line crunch_tests
minify_swallows = refl

abbrev turns : Calls
turns =
    (codes "s", codes "h")
    ∷ (codes "other", codes "k")
    ∷ (codes "s", codes "h")
    ∷ (codes "s", codes "g")
    ∷ []

streak_runs : streak (codes "s") (codes "h") turns ≡ 2
unfolding streak
streak_runs = refl

evict_runs :
    evict_if_needed ((codes "a", [], 1) ∷ (codes "b", [], 1) ∷ (codes "c", [], 1) ∷ []) 2
    ≡ (codes "b", [], 1) ∷ (codes "c", [], 1) ∷ []
unfolding evict_if_needed remove
evict_runs = refl

check_and_update-streak_example :
    (check_and_update (after turns) (codes "s") (codes "h")).1
    ≡ reply (streak (codes "s") (codes "h") turns)
check_and_update-streak_example =
    check_and_update-streak turns (codes "s") (codes "h") (omega arith)

-- The stages before the deduplication, and the cache in which the session has sent the prompt before.
abbrev classified : CompressionPipeline
classified = content_classifier to_ascii_lowercase ∷ []

abbrev seen : InstructionCache
seen = (codes "s", hash_instructions digest two_digits prompt, 1) ∷ []

dedup-stops :
    StopsAt
      (dedup_stage digest two_digits)
      (some (codes "s"))
      (run_stages classified (some (codes "s")) (start prompt) seen)
unfolding run_stages absorb Classifier.process classify Dedup.process check_and_update get set
    hash_instructions
dedup-stops = refl

-- A repeated prompt is replaced, and not stripped any more.
execute-Stops_example :
    execute
      (classified ++ dedup_stage digest two_digits ∷ log_crunch_stage ∷ [])
      (some (codes "s"))
      prompt
      seen
    ≡ execute (classified ++ dedup_stage digest two_digits ∷ []) (some (codes "s")) prompt seen
execute-Stops_example =
    execute-Stops classified (log_crunch_stage ∷ []) (dedup_stage digest two_digits)
      (some (codes "s")) prompt seen dedup-stops

abbrev crunched : CompressionOutput
crunched = (execute (log_crunch_stage ∷ []) none prompt []).0

abbrev noisy : Text
noisy = codes "a\n\n\n-----\nb\n\n"

minify_feeds :
    ((minify noisy).0 ≡ codes "a\n\nb\n") × ((minify (minify noisy).0).0 ≡ codes "a\n\nb")
unfolding minify crunch crunch_from crunch_line crunch_tests
minify_feeds = (refl, refl)

minify-minify_example :
    ((minify (minify noisy).0).0 ≡ chomp (minify noisy).0)
    × ((minify noisy).0 ≡ join (codes "\n") (crunch (lines noisy)))
    × IsClean (reverse (crunch (lines noisy)))
minify-minify_example = minify-minify noisy refl

unclosed_comment_example :
    (crunch_from crunch_start (codes "<!-- x --> a" ∷ codes "b" ∷ [])).kept ≡ crunch_start.kept
unclosed_comment_example =
    unclosed_comment crunch_start (codes "<!-- x --> a") (codes "b" ∷ []) refl refl refl refl

abbrev first_run : CompressionOutput
first_run = (execute (build_pipeline externals true true) (some (codes "s")) prompt []).0

execute_saved_example : byte_len first_run.text + first_run.total_bytes_saved ≡ byte_len prompt
execute_saved_example =
    execute_saved externals externals-HashIsShort true true (some (codes "s")) prompt []

repeat_replaced_example :
    (execute
      (build_pipeline externals true true)
      (some (codes "s"))
      prompt
      (execute (build_pipeline externals true true) (some (codes "s")) prompt []).1).0.text
    ≡ reference (hash_instructions digest two_digits prompt) 2
unfolding get
repeat_replaced_example =
    repeat_replaced externals true (codes "s") prompt []
      (execute (build_pipeline externals true true) (some (codes "s")) prompt []).1
      prompt-instruction refl refl
