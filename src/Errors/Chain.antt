-- ===== src/Errors/Chain.antt =====
-- The class of an error made from a cause chain (src/errors.rs).
use mathlib.Core.List.{append_assoc, append-nil, reverse-cons}
use isartor.Common.{
  Text, codes, contains, starts_with, any, text_eq, text_eq_iff, join, Bool, true, List, [], ◌∷◌,
  ◌++◌, reverse, ◌≡◌, refl, ap, sym, ◌∙◌, ◌||◌, arith, All, ltb, ◌&&◌, subst, Bool-cases, inl, inr,
}
use isartor.Errors.{
  ErrorClass, fatal, is_fatal, class, push_cause, chain_parts, joined, format_error_chain,
  fatal_patterns, classify_error_message, from_llm_error, from_inference_error,
}

starts_with-append : (p s t : Text) → starts_with p s ≡ true → starts_with p (s ++ t) ≡ true
starts_with-append [] s t h = refl
starts_with-append (c ∷ p) [] t h = cc
starts_with-append (c ∷ p) (d ∷ s) t h = ground (arith, starts_with-append p s t)

pub contains-append_left : (p s t : Text) → contains p s ≡ true → contains p (s ++ t) ≡ true
contains-append_left [] [] [] h = refl
contains-append_left [] [] (d ∷ t) h = refl
contains-append_left (c ∷ p) [] t h = cc
contains-append_left p (d ∷ s) t h =
    ground (arith, starts_with-append p (d ∷ s) t, contains-append_left p s t)

pub contains-append_right : (p s t : Text) → contains p t ≡ true → contains p (s ++ t) ≡ true
contains-append_right p [] t h = h
contains-append_right p (c ∷ s) t h = ground (arith, contains-append_right p s t)

module _ {ℓ} {A : Type ℓ} (p : A → Bool) where
  any-append : (xs ys : List A) → any p (xs ++ ys) ≡ (any p xs || any p ys)
  any-append [] ys = refl
  any-append (x ∷ xs) ys = ground (arith, any-append xs ys)

  any-reverse : (xs : List A) → any p (reverse xs) ≡ any p xs
  any-reverse [] = refl
  any-reverse (x ∷ xs) =
      ap (any p) (reverse-cons x xs)
      ∙ ground (arith, any-append (reverse xs) (x ∷ []), any-reverse xs)

module _ (p : Text → Bool) where
  any-push_cause :
      (parts : List Text) (m : Text) → any p (push_cause parts m) ≡ (p m || any p parts)
  unfolding push_cause
  any-push_cause [] m = ground arith
  any-push_cause (q ∷ parts) m = elim (Bool-cases (text_eq q m)) [
    | inl same ↦ rw (same, ← (text_eq_iff q m).0 same) (ground arith)
    | inr new ↦ rw new (ground arith)
  ]

  -- Dropping a message equal to the one before it loses no message.
  any-chain_parts :
      (parts causes : List Text) → any p (chain_parts parts causes) ≡ (any p parts || any p causes)
  unfolding chain_parts
  any-chain_parts parts [] = ground (arith, any-reverse p parts)
  any-chain_parts parts (c ∷ causes) =
      ground (arith, any-chain_parts (push_cause parts c) causes, any-push_cause parts c)

-- A test that holds of a part of a text holds of the whole.
abbrev pub Grows : (Text → Bool) → Type 0
Grows p = (a s b : Text) → p s ≡ true → p (a ++ (s ++ b)) ≡ true

module _ (p : Text → Bool) (grows : Grows p) where
  Grows-left : (a s : Text) → p s ≡ true → p (a ++ s) ≡ true
  Grows-left a s h = subst (λ t. p (a ++ t) ≡ true) (append-nil s) (grows a s [] h)

  any-join : (sep : Text) (parts : List Text) → any p parts ≡ true → p (join sep parts) ≡ true
  any-join sep [] h = cc
  any-join sep (s ∷ []) h = ground arith
  any-join sep (s ∷ t ∷ parts) h = elim (Bool-cases (p s)) [
    | inl here ↦ grows [] s (sep ++ join sep (t ∷ parts)) here
    | inr there ↦
        subst (λ u. p u ≡ true) (append_assoc s sep (join sep (t ∷ parts)))
          (Grows-left (s ++ sep) (join sep (t ∷ parts)) (any-join sep (t ∷ parts) (ground arith)))
  ]

  any-joined : (parts : List Text) → any p parts ≡ true → p (joined parts) ≡ true
  any-joined [] h = cc
  any-joined (s ∷ []) h = ground arith
  any-joined (s ∷ t ∷ parts) h = any-join (codes ": ") (s ∷ t ∷ parts) h

  pub any-format_error_chain :
      (causes : List Text) → any p causes ≡ true → p (format_error_chain causes) ≡ true
  unfolding format_error_chain
  any-format_error_chain causes h =
      any-joined (chain_parts [] causes) (any-chain_parts p [] causes ∙ h)

abbrev is_ascii : Text → Bool
is_ascii [] = true
is_ascii (c ∷ s) = ltb c 128 && is_ascii s

-- `str::to_lowercase` maps a text character by character, but for the final sigma, which is not
-- ASCII: an ASCII pattern in the lower case of a part is in the lower case of the whole.
abbrev pub KeepsAscii : (Text → Text) → Type 0
KeepsAscii lower =
    (p : Text)
    → is_ascii p ≡ true
    → (a s b : Text) → contains p (lower s) ≡ true
    → contains p (lower (a ++ (s ++ b))) ≡ true

is_fatal-eq : (c : ErrorClass) → is_fatal c ≡ true → c ≡ fatal
is_fatal-eq c h = ground arith

module _ (to_lowercase : Text → Text) (keeps : KeepsAscii to_lowercase) where
  any_pattern :
      (pats : List Text)
      → All (λ p. is_ascii p ≡ true) pats
      → Grows (λ s. any (λ pat. contains pat (to_lowercase s)) pats)
  any_pattern [] h a s b e = cc
  any_pattern (p ∷ pats) h a s b e = ground (arith, keeps p h.0 a s b, any_pattern pats h.1 a s b)

  abbrev pub fatal_message : Text → Bool
  fatal_message s = is_fatal (classify_error_message to_lowercase s)

  fatal_message_lem :
      (s : Text) → fatal_message s ≡ any (λ pat. contains pat (to_lowercase s)) fatal_patterns
  unfolding classify_error_message
  fatal_message_lem s = ground arith

  Grows-fatal_message : Grows fatal_message
  Grows-fatal_message a s b h =
      fatal_message_lem (a ++ (s ++ b))
      ∙ any_pattern fatal_patterns (search) a s b (sym (fatal_message_lem s) ∙ h)

  -- If the message of any cause in the chain is classified as fatal by itself, so is the error made
  -- from the whole chain: context wrapped around a fatal error never makes it retryable. The premise
  -- on `to_lowercase` is that it keeps ASCII patterns when text is added around.
  pub from_llm_error-IsFatal :
      (provider : Text) (causes : List Text)
      → any fatal_message causes ≡ true
      → class (from_llm_error to_lowercase provider causes) ≡ fatal
  unfolding class from_llm_error
  from_llm_error-IsFatal provider causes h =
      is_fatal-eq _ (any-format_error_chain fatal_message Grows-fatal_message causes h)

  pub from_inference_error-IsFatal :
      (causes : List Text)
      → any fatal_message causes ≡ true
      → class (from_inference_error to_lowercase causes) ≡ fatal
  unfolding class from_inference_error
  from_inference_error-IsFatal causes h =
      is_fatal-eq _ (any-format_error_chain fatal_message Grows-fatal_message causes h)
