-- ===== src/Compression/LogCrunch.antt =====
-- src/compression/stages/log_crunch.rs: comments, rules, box-drawing lines and repeated blank lines are
-- stripped. The lines that are kept stand in reverse, the newest first, so that `last` is the head.
pub mod Bytes
pub mod Stable
pub mod Again
use isartor.Common.{
  ℕ, ◌-◌, Text, codes, byte_len, lines, join, trim, text_eq, starts_with, ends_with, contains,
  is_empty, Bool, true, false, not, ◌&&◌, ◌||◌, ltb, ◌==◌, if◌then◌else◌, Option, List, [], ◌∷◌,
  reverse, foldl,
}
use isartor.Compression.Cache.{InstructionCache}
use isartor.Compression.Pipeline.{StageOutput, unchanged, CompressionStage}

pub record Crunch : Type 0 where
  pub kept : List Text
  pub in_comment_block : Bool

abbrev pub is_rule : Text → Bool
is_rule t = text_eq t (codes "---") || text_eq t (codes "***") || text_eq t (codes "___")

abbrev pub is_blank : Text → Bool
is_blank line = is_empty (trim line)

abbrev pub last_is_blank : List Text → Bool
last_is_blank [] = false
last_is_blank (prev ∷ kept) = is_blank prev

-- The characters of decoration lines: ═ ─ ━ = -
abbrev pub is_decoration : ℕ → Bool
is_decoration c = c == 0x2550 || c == 0x2500 || c == 0x2501 || c == b'=' || c == b'-'

abbrev pub all_decoration : Text → Bool
all_decoration [] = true
all_decoration (c ∷ s) = is_decoration c && all_decoration s

abbrev pub opens_comment : Text → Bool
opens_comment t = starts_with (codes "<!--") t

abbrev pub closes_comment : Text → Bool
closes_comment t = ends_with (codes "-->") t

-- One round of the loop, given the outcomes of its tests on the trimmed line: whether it opens and
-- whether it closes a comment, whether it holds a closing mark anywhere, whether it is a rule, whether
-- it repeats a blank line, and whether it is decoration.
unfoldable pub crunch_tests :
    Crunch → Text → (opens closes has_mark rule repeats_blank decorates : Bool) → Crunch
crunch_tests s line opens closes has_mark rule repeats_blank decorates =
    if not s.in_comment_block && (opens && not closes)
    then record s { in_comment_block = true }
    else if s.in_comment_block
    then if has_mark then record s { in_comment_block = false } else s
    else if opens && closes
    then s
    else if rule
    then s
    else if repeats_blank
    then s
    else if decorates
    then s
    else record s { kept = line ∷ s.kept }

unfoldable pub crunch_line : Crunch → Text → Text → Crunch
crunch_line s line trimmed =
    crunch_tests s line (opens_comment trimmed) (closes_comment trimmed)
      (contains (codes "-->") trimmed) (is_rule trimmed) (is_empty trimmed && last_is_blank s.kept)
      (ltb 3 (byte_len trimmed) && all_decoration trimmed)

abbrev pub crunch_step : Crunch → Text → Crunch
crunch_step s line = crunch_line s line (trim line)

unfoldable pub crunch_from : Crunch → List Text → Crunch
crunch_from s [] = s
crunch_from s (line ∷ rest) = crunch_from (crunch_step s line) rest

abbrev pub crunch_start : Crunch
crunch_start = record { kept = []; in_comment_block = false }

unfoldable pub crunch : List Text → List Text
unfolding crunch_from
crunch ls = reverse (crunch_from crunch_start ls).kept

unfoldable pub minify : Text → Text × ℕ
unfolding crunch
minify text =
    let result = join (codes "\n") (crunch (lines text)) in
    (result, byte_len text - byte_len result)

unfoldable pub process : Option Text → Text → InstructionCache → StageOutput × InstructionCache
process scope text cache =
    let (minified, saved) = minify text in
    if ltb 0 saved
    then (
      record { text = minified; modified = true; bytes_saved = saved; short_circuit = false },
      cache,
    )
    else (unchanged text, cache)

abbrev pub log_crunch_stage : CompressionStage
log_crunch_stage = record { name = codes "log_crunch"; process = process }
