-- ===== src/ToolIdentity/Match.antt =====
-- What the table of patterns matches.
use isartor.Common.{
  ℕ, Text, codes, text_eq, starts_with, contains, starts_with-contains, ascii_lower,
  to_ascii_lowercase, Bool-cases, false, some, List, [], ◌∷◌, if◌then◌else◌, ◌≡◌, inl, inr, refl,
  ap, arith,
}
use isartor.ToolIdentity.{known_tools, find_tool, identify_tool, identify_tool_or_fallback}

ascii_lower_idem : (c : ℕ) → ascii_lower (ascii_lower c) ≡ ascii_lower c
ascii_lower_idem c = ground arith

lowercase_idem : (s : Text) → to_ascii_lowercase (to_ascii_lowercase s) ≡ to_ascii_lowercase s
lowercase_idem [] = refl
lowercase_idem (c ∷ s) = rw (ascii_lower_idem c, lowercase_idem s)

-- The case of the letters of a `User-Agent` does not matter.
pub identify_tool-to_ascii_lowercase :
    (ua : Text) → identify_tool (to_ascii_lowercase ua) ≡ identify_tool ua
unfolding identify_tool
identify_tool-to_ascii_lowercase ua = ap (λ s. find_tool s known_tools) (lowercase_idem ua)

-- The tool of the first pattern that stands anywhere in the text.
abbrev pub first_inside : Text → List (Text × Text) → Text
first_inside s [] = codes "unknown"
first_inside s ((pattern', tool) ∷ tools) =
    let rest = first_inside s tools in if contains pattern' s then tool else rest

-- The test for a prefix adds nothing to the one for an occurrence: the loop finds the first pattern
-- that stands anywhere in the text.
pub find_tool-first_inside :
    (s : Text) (tools : List (Text × Text)) → find_tool s tools ≡ first_inside s tools
unfolding find_tool
find_tool-first_inside s [] = refl
find_tool-first_inside s ((p, tool) ∷ tools) = elim (Bool-cases (starts_with p s)) [
  | inl h ↦ rw (h, starts_with-contains p s h)
  | inr h ↦ rw (h, find_tool-first_inside s tools)
]

-- The traffic surface is asked only for a `User-Agent` that the table does not name.
pub identify_tool_or_fallback-known :
    (ua surface : Text)
    → text_eq (identify_tool ua) (codes "unknown") ≡ false
    → identify_tool_or_fallback (some ua) surface ≡ identify_tool ua
unfolding identify_tool_or_fallback
identify_tool_or_fallback-known ua surface known = rw known
