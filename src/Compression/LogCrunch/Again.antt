-- ===== src/Compression/LogCrunch/Again.antt =====
-- Texts that src/compression/stages/log_crunch.rs strips twice.
use mathlib.Core.List.{reverse_aux, reverse-reverse, append-nil}
use isartor.Common.{
  ℕ, Text, codes, lines, lines_from, strip_cr, join, any, false, Bool-cases, ◌==◌, if◌then◌else◌,
  List, [], ◌∷◌, ◌++◌, reverse, All, ◌≡◌, inl, inr, refl, ap, ◌∙◌, sym, subst,
}
use isartor.TextLines.{Plain, strip_cr-Plain, lines_from-go, lines_from-break, lines_from-newline}
use isartor.Compression.LogCrunch.{
  Crunch, crunch_line, crunch_step, crunch_from, crunch_start, crunch, minify,
}
use isartor.Compression.LogCrunch.Stable.{
  IsClean, any-cons, tests_cases, crunch_from_clean, crunch_idem,
}

All-reverse_aux :
    {A : Type 0} (P : A → Type 0) (xs ys : List A) → All P xs → All P ys → All P (reverse_aux xs ys)
All-reverse_aux P [] ys h k = k
All-reverse_aux P (x ∷ xs) ys h k = All-reverse_aux P xs (x ∷ ys) h.1 (h.0, k)

-- The text less a line feed at its end.
abbrev pub chomp : Text → Text
chomp [] = []
chomp (c ∷ []) = if c == 10 then [] else c ∷ []
chomp (c ∷ d ∷ s) = c ∷ chomp (d ∷ s)

-- The lines less an empty one at the end.
abbrev drop_empty_last : List Text → List Text
drop_empty_last [] = []
drop_empty_last ([] ∷ []) = []
drop_empty_last ((c ∷ x) ∷ []) = (c ∷ x) ∷ []
drop_empty_last (x ∷ y ∷ ys) = x ∷ drop_empty_last (y ∷ ys)

lines_from-end :
    (d : ℕ) (cur x : Text) → Plain x → lines_from (d ∷ cur) x ≡ reverse_aux (d ∷ cur) x ∷ []
lines_from-end d cur [] k = refl
lines_from-end d cur (c ∷ x) k =
    lines_from-go (d ∷ cur) c x k.0.0 ∙ lines_from-end c (d ∷ cur) x k.1

lines-join : (ls : List Text) → All Plain ls → lines (join (codes "\n") ls) ≡ drop_empty_last ls
lines-join [] h = refl
lines-join ([] ∷ []) h = refl
lines-join ((c ∷ x) ∷ []) h = lines_from-go [] c x h.0.0.0 ∙ lines_from-end c [] x h.0.1
lines-join (x ∷ y ∷ ys) h =
    lines_from-newline [] x (join (codes "\n") (y ∷ ys)) tt h.0
    ∙ ap (λ (t : List Text). x ∷ t) (lines-join (y ∷ ys) h.1)

chomp-append : (x : Text) (c : ℕ) (s : Text) → chomp (x ++ c ∷ s) ≡ x ++ chomp (c ∷ s)
chomp-append [] c s = refl
chomp-append (d ∷ []) c s = refl
chomp-append (d ∷ e ∷ x) c s = ap (λ (t : Text). d ∷ t) (chomp-append (e ∷ x) c s)

chomp-Plain : (x : Text) → Plain x → chomp x ≡ x
chomp-Plain [] h = refl
chomp-Plain (c ∷ []) h = rw h.0.0
chomp-Plain (c ∷ d ∷ x) h = ap (λ (t : Text). c ∷ t) (chomp-Plain (d ∷ x) h.1)

-- A line feed before more lines is not the last character, unless one empty line follows.
chomp_before :
    (y z : Text) (zs : List Text)
    → chomp (10 ∷ join (codes "\n") (y ∷ z ∷ zs)) ≡ 10 ∷ chomp (join (codes "\n") (y ∷ z ∷ zs))
chomp_before [] z zs = refl
chomp_before (c ∷ y) z zs = refl

chomp-join :
    (ls : List Text)
    → All Plain ls
    → chomp (join (codes "\n") ls) ≡ join (codes "\n") (drop_empty_last ls)
chomp-join [] h = refl
chomp-join ([] ∷ []) h = refl
chomp-join ((c ∷ x) ∷ []) h = chomp-Plain (c ∷ x) h.0
chomp-join (x ∷ [] ∷ []) h = chomp-append x 10 [] ∙ append-nil x
chomp-join (x ∷ (c ∷ y) ∷ []) h =
    chomp-append x 10 (c ∷ y) ∙ ap (λ (t : Text). x ++ 10 ∷ t) (chomp-Plain (c ∷ y) h.1.0)
chomp-join (x ∷ y ∷ z ∷ zs) h =
    chomp-append x 10 (join (codes "\n") (y ∷ z ∷ zs))
    ∙ ap (λ (t : Text). x ++ t) (chomp_before y z zs)
    ∙ ap (λ (t : Text). x ++ 10 ∷ t) (chomp-join (y ∷ z ∷ zs) h.1)

IsClean-drop :
    (ls kept : List Text)
    → IsClean (reverse_aux ls kept)
    → IsClean (reverse_aux (drop_empty_last ls) kept)
IsClean-drop [] kept h = h
IsClean-drop ([] ∷ []) kept h = h.1
IsClean-drop ((c ∷ x) ∷ []) kept h = h
IsClean-drop (x ∷ y ∷ ys) kept h = IsClean-drop (y ∷ ys) (x ∷ kept) h

lines_from-Plain :
    (cur s : Text) → Plain cur → any (λ c. c == 13) s ≡ false → All Plain (lines_from cur s)
lines_from-Plain [] [] h k = tt
lines_from-Plain (d ∷ cur) [] h k = (All-reverse_aux _ (d ∷ cur) [] h tt, tt)
lines_from-Plain cur (c ∷ s) h k =
    let (here, later) = any-cons (c == 13) (any (λ d. d == 13) s) k in
    elim (Bool-cases (c == 10)) [
      | inr other ↦
          subst (All Plain) (sym (lines_from-go cur c s other))
            (lines_from-Plain (c ∷ cur) s ((other, here), h) later)
      | inl feed ↦
          let line : Plain (reverse (strip_cr cur)) =
            subst (λ (t : Text). Plain (reverse t)) (sym (strip_cr-Plain cur h))
              (All-reverse_aux _ cur [] h tt) in
          subst (All Plain) (sym (lines_from-break cur c s feed))
            (line, lines_from-Plain [] s tt later)
    ]

crunch_line-All :
    (P : Text → Type 0) (s : Crunch) (line : Text)
    → All P s.kept
    → P line
    → All P (crunch_step s line).kept
unfolding crunch_line
crunch_line-All P s line h k = elim (tests_cases s line _ _ _ _ _ _) [
  | inl same ↦ subst (All P) (sym same) h
  | inr (more, stay) ↦ subst (All P) (sym more) (k, h)
]

crunch_from-All :
    (P : Text → Type 0) (s : Crunch) (ls : List Text)
    → All P s.kept
    → All P ls
    → All P (crunch_from s ls).kept
unfolding crunch_from
crunch_from-All P s [] h k = h
crunch_from-All P s (l ∷ ls) h k =
    crunch_from-All P (crunch_step s l) ls (crunch_line-All P s l h k.0) k.1

crunch-All : (P : Text → Type 0) (ls : List Text) → All P ls → All P (crunch ls)
unfolding crunch
crunch-All P ls h =
    All-reverse_aux P (crunch_from crunch_start ls).kept [] (crunch_from-All P crunch_start ls tt h)
      tt

crunch_clean : (ls : List Text) → IsClean (reverse ls) → crunch ls ≡ ls
unfolding crunch
crunch_clean ls h =
    ap (λ (s : Crunch). reverse s.kept) (crunch_from_clean [] ls h) ∙ reverse-reverse ls

-- If a text without carriage returns is stripped twice, the second time removes nothing but a line feed at
-- the end, where the first left an empty last line. The lines that the first leaves have, read from the last
-- one backwards, no line that opens a comment, no rule, no decoration line, and no blank line after a blank
-- line.
pub minify-minify :
    (text : Text)
    → any (λ c. c == 13) text ≡ false
    → ((minify (minify text).0).0 ≡ chomp (minify text).0)
      × ((minify text).0 ≡ join (codes "\n") (crunch (lines text)))
      × IsClean (reverse (crunch (lines text)))
unfolding minify
minify-minify text h =
    let ls = crunch (lines text) in
    let plain : All Plain ls = crunch-All Plain (lines text) (lines_from-Plain [] text tt h) in
    let clean = (crunch_idem (lines text)).1 in
    (
      ap (λ k. join (codes "\n") (crunch k)) (lines-join ls plain)
          ∙ ap (join (codes "\n")) (crunch_clean (drop_empty_last ls) (IsClean-drop ls [] clean))
          ∙ sym (chomp-join ls plain),
      refl,
      clean,
    )
