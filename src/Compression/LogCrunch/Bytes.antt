-- ===== src/Compression/LogCrunch/Bytes.antt =====
-- The byte counts of src/compression/stages/log_crunch.rs.
use mathlib.Core.List.{reverse-cons}
use isartor.Common.{
  ℕ, ◌+◌, ◌≤◌, Text, codes, byte_len, byte_len-append, byte_len-reverse, strip_cr, lines,
  lines_from, join, trim, List, [], ◌∷◌, ◌++◌, reverse, ◌≡◌, refl, ap, arith,
}
use isartor.Compression.LogCrunch.{
  Crunch, crunch_tests, crunch_line, crunch_step, crunch_from, crunch_start, crunch, minify,
}

-- The bytes of the lines, each with the line feed after it.
abbrev weight : List Text → ℕ
weight [] = 0
weight (l ∷ ls) = byte_len l + 1 + weight ls

weight-append : (xs ys : List Text) → weight (xs ++ ys) ≡ weight xs + weight ys
weight-append [] ys = omega arith
weight-append (x ∷ xs) ys = omega (arith, weight-append xs ys)

weight-reverse : (xs : List Text) → weight (reverse xs) ≡ weight xs
weight-reverse [] = refl
weight-reverse (x ∷ xs) =
    omega
      (arith, ap weight (reverse-cons x xs), weight-append (reverse xs) (x ∷ []), weight-reverse xs)

byte_len-strip_cr-le : (s : Text) → byte_len (strip_cr s) ≤ byte_len s
byte_len-strip_cr-le [] = omega arith
byte_len-strip_cr-le (c ∷ s) = ground arith

weight-lines_from : (cur s : Text) → weight (lines_from cur s) ≤ byte_len cur + byte_len s + 1
weight-lines_from [] [] = omega arith
weight-lines_from (d ∷ cur) [] = omega (arith, byte_len-reverse (d ∷ cur))
weight-lines_from [] (c ∷ s) = ground (arith, weight-lines_from [] s, weight-lines_from (c ∷ []) s)
weight-lines_from (d ∷ cur) (c ∷ s) = ground (
  arith,
  weight-lines_from [] s,
  weight-lines_from (c ∷ d ∷ cur) s,
  byte_len-reverse (strip_cr (d ∷ cur)),
  byte_len-strip_cr-le (d ∷ cur),
)

weight-crunch_line :
    (s : Crunch) (line trimmed : Text)
    → weight (crunch_line s line trimmed).kept ≤ weight s.kept + (byte_len line + 1)
unfolding crunch_line crunch_tests
weight-crunch_line s line trimmed = ground arith

weight-crunch_from :
    (s : Crunch) (ls : List Text) → weight (crunch_from s ls).kept ≤ weight s.kept + weight ls
unfolding crunch_from
weight-crunch_from s [] = omega arith
weight-crunch_from s (l ∷ ls) =
    omega (arith, weight-crunch_line s l (trim l), weight-crunch_from (crunch_step s l) ls)

byte_len-join :
    (l : Text) (ls : List Text) → byte_len (join (codes "\n") (l ∷ ls)) + 1 ≡ weight (l ∷ ls)
byte_len-join l [] = omega arith
byte_len-join l (k ∷ ls) = omega (
  arith,
  byte_len-append l (codes "\n" ++ join (codes "\n") (k ∷ ls)),
  byte_len-append (codes "\n") (join (codes "\n") (k ∷ ls)),
  byte_len-join k ls,
)

byte_len-join-le :
    (ls : List Text) (n : ℕ) → weight ls ≤ n + 1 → byte_len (join (codes "\n") ls) ≤ n
byte_len-join-le [] n h = omega arith
byte_len-join-le (l ∷ ls) n h = omega (arith, byte_len-join l ls)

-- The text never grows, and the bytes reported as saved are exactly those that are gone.
pub minify_saved : (text : Text) → byte_len (minify text).0 + (minify text).1 ≡ byte_len text
unfolding minify crunch
minify_saved text =
    let kept = (crunch_from crunch_start (lines text)).kept in
    let bound : weight (reverse kept) ≤ byte_len text + 1 = omega (
      arith,
      weight-reverse kept,
      weight-crunch_from crunch_start (lines text),
      weight-lines_from [] text,
    ) in
    omega (arith, byte_len-join-le (reverse kept) (byte_len text) bound)
