-- ===== src/TextLines.antt =====
-- The lines of a text, as `str::lines` gives them.
use mathlib.Core.List.{reverse_aux}
use isartor.Common.{
  ℕ, Text, lines_from, strip_cr, Bool, true, false, ◌==◌, List, [], ◌∷◌, ◌++◌, reverse, All, ◌≡◌,
  refl, ap, ◌∙◌,
}

-- A text without line feeds and carriage returns.
abbrev pub Plain : Text → Type 0
Plain s = All (λ c. (c == 10 ≡ false) × (c == 13 ≡ false)) s

pub strip_cr-Plain : (s : Text) → Plain s → strip_cr s ≡ s
strip_cr-Plain [] h = refl
strip_cr-Plain (c ∷ s) h = rw h.0.1

pub lines_from-go :
    (cur : Text) (c : ℕ) (s : Text)
    → c == 10 ≡ false
    → lines_from cur (c ∷ s) ≡ lines_from (c ∷ cur) s
lines_from-go cur c s h =
    ap
      (λ (b : Bool). elim b as (λ _. List Text) [
        | true ↦ reverse (strip_cr cur) ∷ lines_from [] s
        | false ↦ lines_from (c ∷ cur) s
      ])
      h

pub lines_from-break :
    (cur : Text) (c : ℕ) (s : Text)
    → c == 10 ≡ true
    → lines_from cur (c ∷ s) ≡ reverse (strip_cr cur) ∷ lines_from [] s
lines_from-break cur c s h =
    ap
      (λ (b : Bool). elim b as (λ _. List Text) [
        | true ↦ reverse (strip_cr cur) ∷ lines_from [] s
        | false ↦ lines_from (c ∷ cur) s
      ])
      h

pub lines_from-newline :
    (cur x s : Text)
    → Plain cur
    → Plain x
    → lines_from cur (x ++ 10 ∷ s) ≡ reverse_aux cur x ∷ lines_from [] s
lines_from-newline cur [] s h k =
    lines_from-break cur 10 s refl ∙ ap (λ t. reverse t ∷ lines_from [] s) (strip_cr-Plain cur h)
lines_from-newline cur (c ∷ x) s h k =
    lines_from-go cur c (x ++ 10 ∷ s) k.0.0 ∙ lines_from-newline (c ∷ cur) x s (k.0, h) k.1
