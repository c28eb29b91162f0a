-- ===== src/Compression/LogCrunch/Stable.antt =====
-- What stays in the text of src/compression/stages/log_crunch.rs, and what is lost.
use mathlib.Core.List.{reverse-reverse, reverse_aux}
use isartor.Common.{
  Text, codes, byte_len, trim, contains, is_empty, Bool, true, false, not, ◌&&◌, ltb, List, [], ◌∷◌,
  reverse, any, ◌≡◌, refl, ap, arith, inl, inr, ◌⊎◌, subst, sym, ◌∙◌,
}
use isartor.Compression.LogCrunch.{
  Crunch, is_rule, last_is_blank, all_decoration, opens_comment, closes_comment, crunch_tests,
  crunch_line, crunch_step, crunch_from, crunch_start, crunch,
}

-- A line that is kept after the lines `older`, the newest of them first.
abbrev pub stays : List Text → Text → Bool
stays older trimmed =
    not (opens_comment trimmed)
    && (not (is_rule trimmed)
        && (not (is_empty trimmed && last_is_blank older)
            && not (ltb 3 (byte_len trimmed) && all_decoration trimmed)))

abbrev pub IsClean : List Text → Type 0
IsClean [] = Unit
IsClean (l ∷ older) = (stays older (trim l) ≡ true) × IsClean older

pub any-cons :
    (a : Bool) (b : Bool) → (elim a [ true ↦ true | false ↦ b ]) ≡ false → (a ≡ false) × (b ≡ false)
any-cons a b h = ground arith

-- A round keeps the line exactly if it is not in a comment and none of the tests holds.
pub tests_cases :
    (s : Crunch) (line : Text) (o c k r b d : Bool)
    → ((crunch_tests s line o c k r b d).kept ≡ s.kept)
      ⊎ (((crunch_tests s line o c k r b d).kept ≡ line ∷ s.kept)
          × ((not o && (not r && (not b && not d))) ≡ true))
unfolding crunch_tests
tests_cases s line o c k r b d = ground arith

tests_keep :
    (kept : List Text) (line : Text) (o c k r b d : Bool)
    → (not o && (not r && (not b && not d))) ≡ true
    → crunch_tests (record { kept = kept; in_comment_block = false }) line o c k r b d
      ≡ record { kept = line ∷ kept; in_comment_block = false }
unfolding crunch_tests
tests_keep kept line o c k r b d h = ground arith

line_keep :
    (kept : List Text) (line : Text)
    → stays kept (trim line) ≡ true
    → crunch_step (record { kept = kept; in_comment_block = false }) line
      ≡ record { kept = line ∷ kept; in_comment_block = false }
unfolding crunch_line
line_keep kept line h =
    tests_keep kept line (opens_comment (trim line)) (closes_comment (trim line))
      (contains (codes "-->") (trim line)) (is_rule (trim line))
      (is_empty (trim line) && last_is_blank kept)
      (ltb 3 (byte_len (trim line)) && all_decoration (trim line)) h

crunch_line-IsClean :
    (s : Crunch) (line : Text) → IsClean s.kept → IsClean (crunch_line s line (trim line)).kept
unfolding crunch_line
crunch_line-IsClean s line h = elim (tests_cases s line _ _ _ _ _ _) [
  | inl same ↦ subst IsClean (sym same) h
  | inr (more, stay) ↦ subst IsClean (sym more) (stay, h)
]

crunch_from-IsClean :
    (s : Crunch) (ls : List Text) → IsClean s.kept → IsClean (crunch_from s ls).kept
unfolding crunch_from
crunch_from-IsClean s [] h = h
crunch_from-IsClean s (l ∷ ls) h =
    crunch_from-IsClean (crunch_step s l) ls (crunch_line-IsClean s l h)

IsClean-tail : (xs ys : List Text) → IsClean (reverse_aux xs ys) → IsClean ys
IsClean-tail [] ys h = h
IsClean-tail (x ∷ xs) ys h = let k = IsClean-tail xs (x ∷ ys) h in k.1

-- The loop keeps every line of a text that is clean when read backwards.
pub crunch_from_clean :
    (kept ls : List Text)
    → IsClean (reverse_aux ls kept)
    → crunch_from (record { kept = kept; in_comment_block = false }) ls
      ≡ record { kept = reverse_aux ls kept; in_comment_block = false }
unfolding crunch_from
crunch_from_clean kept [] h = refl
crunch_from_clean kept (l ∷ ls) h =
    let stay = IsClean-tail ls (l ∷ kept) h in
    ap (λ s. crunch_from s ls) (line_keep kept l stay.0) ∙ crunch_from_clean (l ∷ kept) ls h

-- The lines that are left are clean: read from the last one backwards, they have no line that opens a
-- comment, no rule, no decoration line, and no blank line after a blank line. Stripping these lines again
-- leaves them as they are.
pub crunch_idem :
    (ls : List Text) → (crunch (crunch ls) ≡ crunch ls) × IsClean (reverse (crunch ls))
unfolding crunch
crunch_idem ls =
    let kept = (crunch_from crunch_start ls).kept in
    let back = reverse-reverse kept in
    let clean = crunch_from-IsClean crunch_start ls tt in
    (
      ap (λ (s : Crunch). reverse s.kept)
            (crunch_from_clean [] (reverse kept) (subst IsClean (sym back) clean))
          ∙ reverse-reverse (reverse kept),
      subst IsClean (sym back) clean,
    )

inside_line :
    (s : Crunch) (line : Text)
    → s.in_comment_block ≡ true
    → contains (codes "-->") (trim line) ≡ false
    → crunch_step s line ≡ s
unfolding crunch_line crunch_tests
inside_line s line b h = rw (b, h)

opening_line :
    (s : Crunch) (line : Text)
    → s.in_comment_block ≡ false
    → opens_comment (trim line) ≡ true
    → closes_comment (trim line) ≡ false
    → crunch_step s line ≡ record s { in_comment_block = true }
unfolding crunch_line crunch_tests
opening_line s line b o c = rw (b, o, c)

inside_comment :
    (s : Crunch) (rest : List Text)
    → s.in_comment_block ≡ true
    → any (λ l. contains (codes "-->") (trim l)) rest ≡ false
    → (crunch_from s rest).kept ≡ s.kept
unfolding crunch_from
inside_comment s [] b h = refl
inside_comment s (l ∷ rest) b h =
    let (here, later) = any-cons (contains (codes "-->") (trim l)) _ h in
    ap (λ r. (crunch_from r rest).kept) (inside_line s l b here) ∙ inside_comment s rest b later

-- Outside a comment, after a line that starts one and does not end in the closing mark, even if it
-- holds the mark with text behind it, every line is dropped up to the next with a closing mark: with
-- none, the rest of the text is lost.
pub unclosed_comment :
    (s : Crunch) (line : Text) (rest : List Text)
    → s.in_comment_block ≡ false
    → opens_comment (trim line) ≡ true
    → closes_comment (trim line) ≡ false
    → any (λ l. contains (codes "-->") (trim l)) rest ≡ false
    → (crunch_from s (line ∷ rest)).kept ≡ s.kept
unfolding crunch_from
unclosed_comment s line rest b o c h =
    ap (λ r. (crunch_from r rest).kept) (opening_line s line b o c)
    ∙ inside_comment (record s { in_comment_block = true }) rest refl h
