-- ===== src/Prompt/Keys.antt =====
-- Which native requests share the material of a cache key (src/core/prompt.rs).
use isartor.Common.{
  ℕ, Text, codes, Bool, true, false, Option, some, List, [], ◌∷◌, ◌++◌, any, ◌==◌, ◌≡◌, refl, ◌∙◌,
  sym, arith,
}
use isartor.Json.{Json}
use isartor.Prompt.{is_blank, str_field, extract_cache_key, extract_prompt_parts, model_extra}

abbrev pub has_line_feed : Text → Bool
has_line_feed t = any (λ c. c == 10) t

has_line_feed-middle : (s t : Text) → has_line_feed (s ++ 10 ∷ t) ≡ true
has_line_feed-middle [] t = refl
has_line_feed-middle (c ∷ s) t = ground (arith, has_line_feed-middle s t)

-- A text is split at its last line feed in one way.
split_last_line :
    (s s' t t' : Text)
    → has_line_feed t ≡ false
    → has_line_feed t' ≡ false
    → s ++ 10 ∷ t ≡ s' ++ 10 ∷ t'
    → (s ≡ s') × (t ≡ t')
split_last_line [] [] t t' h h' e = (refl, cc)
split_last_line [] (d ∷ s') t t' h h' e =
    let tails : t ≡ s' ++ 10 ∷ t' = cc in let k = has_line_feed-middle s' t' in absurd cc
split_last_line (c ∷ s) [] t t' h h' e =
    let tails : s ++ 10 ∷ t ≡ t' = cc in let k = has_line_feed-middle s t in absurd cc
split_last_line (c ∷ s) (d ∷ s') t t' h h' e =
    let (a, b) = split_last_line s s' t t' h h' cc in let head : c ≡ d = cc in (cc, b)

-- The key of a prompt and of the line of the model.
abbrev native_key : Text → Text → Text
native_key [] model = codes "model: " ++ model
native_key (c ∷ p) model = (c ∷ p) ++ 10 ∷ (codes "model: " ++ model)

native_key-injective :
    (p p' model model' : Text)
    → has_line_feed model ≡ false
    → has_line_feed model' ≡ false
    → native_key p model ≡ native_key p' model'
    → (p ≡ p') × (model ≡ model')
native_key-injective [] [] model model' h h' e = (refl, cc)
native_key-injective [] (d ∷ p') model model' h h' e =
    let k = has_line_feed-middle (d ∷ p') (codes "model: " ++ model') in
    let n : has_line_feed (codes "model: " ++ model) ≡ false = h in absurd cc
native_key-injective (c ∷ p) [] model model' h h' e =
    let k = has_line_feed-middle (c ∷ p) (codes "model: " ++ model) in
    let n : has_line_feed (codes "model: " ++ model') ≡ false = h' in absurd cc
native_key-injective (c ∷ p) (d ∷ p') model model' h h' e =
    let (a, b) = split_last_line (c ∷ p) (d ∷ p') _ _ h h' e in (a, cc)

module _ {V : Type 0} (json : Json V) (from_slice : List ℕ → Option V)
    (from_utf8_lossy : List ℕ → Text) where
  open json use {get}

  -- The body has a prompt, and a model that is not blank and has no line feed.
  pub record IsNative (body : List ℕ) (p model : Text) : Type 0 where
    pub value : V
    pub parsed : from_slice body ≡ some value
    pub prompt_field : str_field json value (codes "prompt") ≡ some p
    pub model_field : str_field json value (codes "model") ≡ some model
    pub visible : is_blank model ≡ false
    pub one_line : has_line_feed model ≡ false

  extract_cache_key-native :
      (body : List ℕ) (p model : Text)
      → IsNative body p model
      → extract_cache_key json from_slice from_utf8_lossy body ≡ native_key p model
  unfolding extract_cache_key extract_prompt_parts model_extra
  extract_cache_key-native body [] model n =
      rw
        (
          extract_cache_key, extract_prompt_parts, n.parsed, n.prompt_field, model_extra,
          n.model_field, n.visible,
        )
        refl
  extract_cache_key-native body (c ∷ p) model n =
      rw
        (
          extract_cache_key, extract_prompt_parts, n.parsed, n.prompt_field, model_extra,
          n.model_field, n.visible,
        )
        refl

  -- Two native requests, each with a model that is not blank and has no line feed, have the same key
  -- material only if they have the same prompt and the same model.
  pub extract_cache_key_separates :
      (body body' : List ℕ) (p p' model model' : Text)
      → IsNative body p model
      → IsNative body' p' model'
      → extract_cache_key json from_slice from_utf8_lossy body
        ≡ extract_cache_key json from_slice from_utf8_lossy body'
      → (p ≡ p') × (model ≡ model')
  extract_cache_key_separates body body' p p' model model' n n' e =
      native_key-injective p p' model model' n.one_line n'.one_line (
        sym (extract_cache_key-native body p model n)
        ∙ e
        ∙ extract_cache_key-native body' p' model' n')
