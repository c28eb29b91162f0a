-- ===== src/Health/Message.antt =====
-- What is kept of an error's message (`compact_provider_error` of src/state.rs).
use isartor.Common.{
  ℕ, zero, suc, ◌+◌, ◌-◌, ◌≤◌, ◌<◌, Text, codes, byte_len, char_len, leb, leb→le, Bool-cases,
  Option, none, some, Option-cases, [], ◌∷◌, ◌++◌, ◌≡◌, ◌≢◌, inl, inr, refl, ap, arith,
}
use isartor.Health.{slice_to, compact_line, max_len, single_line, compact_provider_error}

slice_to_split :
    (n : ℕ) (s t : Text)
    → slice_to n s ≡ some t
    → (rest : Text) × ((s ≡ t ++ rest) × (byte_len t ≡ n))
unfolding slice_to
slice_to_split zero s t e =
    let nothing : [] ≡ t = cc in (s, (rw (← nothing) refl, rw (← nothing) refl))
slice_to_split (suc n) [] t e = absurd cc
slice_to_split (suc n) (c ∷ s) t e = elim (Bool-cases (leb (char_len c) (suc n))) [
  | inr h ↦ let k = rw (h, slice_to) at e in absurd cc
  | inl h ↦ elim (Option-cases (slice_to (suc n - char_len c) s)) [
    | inl m ↦ let k = rw (h, m, slice_to) at e in absurd cc
    | inr (u, m) ↦
        let k = rw (h, m, slice_to) at e in
        let (rest, (a, b)) = slice_to_split (suc n - char_len c) s u m in
        let le = leb→le (char_len c) (suc n) h in
        let shape : c ∷ u ≡ t = cc in
        (rest, (rw (← shape) (ap (λ (x : Text). c ∷ x) a), rw (← shape) (omega (arith, b, le))))
  ]
]

slice_to-none :
    (n : ℕ) (s : Text)
    → slice_to n s ≡ none
    → (front back : Text) → s ≡ front ++ back
    → byte_len front ≢ n
unfolding slice_to
slice_to-none zero s e front back p l = cc
slice_to-none (suc n) [] e [] back p l = absurd (omega arith)
slice_to-none (suc n) [] e (d ∷ front) back p l = cc
slice_to-none (suc n) (c ∷ s) e [] back p l = absurd (omega arith)
slice_to-none (suc n) (c ∷ s) e (d ∷ front) back p l =
    let head : c ≡ d = cc in
    let tail : s ≡ front ++ back = cc in
    let total : char_len c + byte_len front ≡ suc n = rw head l in
    elim (Bool-cases (leb (char_len c) (suc n))) [
      | inr h ↦ absurd (ground arith)
      | inl h ↦ elim (Option-cases (slice_to (suc n - char_len c) s)) [
        | inr (u, m) ↦ let k = rw (h, m, slice_to) at e in absurd cc
        | inl m ↦ slice_to-none (suc n - char_len c) s m front back tail (omega (arith, total))
      ]
    ]

-- What becomes of a message on one line: it is kept if it has at most 240 bytes; else its first 237 bytes
-- and three dots are kept if a character ends there, and if none does, the slice panics.
pub data Compact (line : Text) : Option Text → Type 0 where
  short : byte_len line ≤ 240 → Compact line (some line)
  cut :
      (front back : Text)
      → 240 < byte_len line
      → line ≡ front ++ back
      → byte_len front ≡ 237
      → Compact line (some (front ++ codes "..."))
  panics :
      240 < byte_len line
      → ((front back : Text) → line ≡ front ++ back → byte_len front ≢ 237)
      → Compact line none

-- A message is kept as `Compact` says of its words on one line, whatever its characters: in particular the
-- record of a failure panics for some long messages that are not ASCII.
pub compact_provider_error-Compact :
    (error : Text) → Compact (single_line error) (compact_provider_error error)
unfolding compact_provider_error compact_line
compact_provider_error-Compact error =
    let line = single_line error in
    elim (Bool-cases (leb (byte_len line) max_len)) [
      | inl h ↦ rw (h, compact_provider_error, compact_line) (short (leb→le (byte_len line) 240 h))
      | inr h ↦
          let long : 240 < byte_len line = ground arith in
          elim (Option-cases (slice_to 237 line)) [
            | inl m ↦
                rw (h, m, compact_provider_error, compact_line)
                  (panics long (slice_to-none 237 line m))
            | inr (t, m) ↦
                let (rest, (a, b)) = slice_to_split 237 line t m in
                rw (h, m, compact_provider_error, compact_line) (cut t rest long a b)
          ]
    ]
