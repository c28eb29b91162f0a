-- ===== src/Compression/Optimize/Untouched.antt =====
-- What src/compression/optimize.rs leaves alone in a request.
use isartor.Common.{
  [], ◌∷◌, ℕ, Text, codes, text_eq, text_eq_iff, Bool, true, false, Bool-cases, Option-cases,
  if◌then◌else◌, Option, some, List, ◌≡◌, refl, ◌∙◌, inl, inr,
}
use isartor.Json.{Json, JsonLaws}
use isartor.Compression.Cache.{InstructionCache}
use isartor.Compression.Pipeline.{CompressionPipeline}
use isartor.Compression.Stages.{Externals, build_pipeline}
use isartor.Compression.Optimize.{
  Rewriting, extract_text_from_value, role_of, content_of, system_step, rewrite_message,
  message_step, messages_loop, messages_step, rewrite,
}

module _ {V : Type 0} (json : Json V) (pipeline : CompressionPipeline) (scope : Option Text) where
  open json use {string, array, as_array, get, set_field}

  -- Message by message: the content of a system message may be replaced by another text.
  pub data Edited : List V → List V → Type 0 where
    done : Edited [] []
    kept : {m : V} {ms ms' : List V} → Edited ms ms' → Edited (m ∷ ms) (m ∷ ms')
    replaced :
        {m : V} {ms ms' : List V} (text : Text)
        → role_of json pipeline scope m ≡ codes "system"
        → Edited ms ms'
        → Edited (m ∷ ms) (set_field m (codes "content") (string text) ∷ ms')

  pub record Rewritten (doc doc' : V) : Type 0 where
    pub others :
        (key : Text)
        → text_eq (codes "system") key ≡ false
        → text_eq (codes "messages") key ≡ false
        → get doc' key ≡ get doc key
    pub messages :
        (found : V) (ms : List V)
        → get doc (codes "messages") ≡ some found
        → as_array found ≡ some ms
        → (found' : V) × (ms' : List V) × (get doc' (codes "messages") ≡ some found')
          × (as_array found' ≡ some ms')
          × Edited ms ms'

module _ {V : Type 0} (json : Json V) (laws : JsonLaws json) (pipeline : CompressionPipeline)
    (scope : Option Text) where
  open json use {string, array, as_array, get, set_field}

  set_if_other :
      (b : Bool) (doc v : V) (written key : Text) (r s : Rewriting)
      → text_eq written key ≡ false
      → get (if◌then◌else◌ {A = V × Rewriting} b (set_field doc written v, r) (doc, s)).0 key
        ≡ get doc key
  set_if_other true doc v written key r s n = laws.get-set_other doc written key v n
  set_if_other false doc v written key r s n = refl

  system_step-other :
      (doc : V) (r : Rewriting) (key : Text)
      → text_eq (codes "system") key ≡ false
      → get (system_step json pipeline scope doc r).0 key ≡ get doc key
  unfolding system_step
  system_step-other doc r key n = elim (Option-cases (get doc (codes "system"))) [
    | inl absent ↦ rw (absent, system_step)
    | inr (system, present) ↦ elim (Option-cases (extract_text_from_value json system)) [
      | inl no_text ↦ rw (present, no_text, system_step)
      | inr (text, found) ↦
          rw (present, found, system_step) (set_if_other _ doc _ (codes "system") key _ _ n)
    ]
  ]

  message_Edited :
      (b : Bool) (m : V) {ms ms' : List V} (text : Text) (r s : Rewriting)
      → role_of json pipeline scope m ≡ codes "system"
      → Edited json pipeline scope ms ms'
      → Edited json pipeline scope (m ∷ ms) (
          (if◌then◌else◌ {A = V × Rewriting} b
            (set_field m (codes "content") (string text), r)
            (m, s)).0
          ∷ ms')
  message_Edited true m text r s e h = replaced text e h
  message_Edited false m text r s e h = kept h

  message_step-Edited :
      (m : V) (r : Rewriting) {ms ms' : List V}
      → Edited json pipeline scope ms ms'
      → Edited json pipeline scope (m ∷ ms) ((message_step json pipeline scope m r).0 ∷ ms')
  unfolding message_step
  message_step-Edited m r h =
      elim (Bool-cases (text_eq (role_of json pipeline scope m) (codes "system"))) [
        | inr other ↦ rw (other, message_step) (kept h)
        | inl system ↦
            let e = (text_eq_iff (role_of json pipeline scope m) (codes "system")).0 system in
            elim (Option-cases (extract_text_from_value json (content_of json pipeline scope m))) [
              | inl no_text ↦ rw (system, no_text, message_step) (kept h)
              | inr (text, found) ↦
                  rw (system, found, message_step)
                    (unfold rewrite_message in message_Edited _ m _ _ _ e h)
            ]
      ]

  messages_loop-Edited :
      (ms : List V) (r : Rewriting)
      → Edited json pipeline scope ms (messages_loop json pipeline scope ms r).0
  unfolding messages_loop
  messages_loop-Edited [] r = done
  messages_loop-Edited (m ∷ ms) r =
      message_step-Edited m r (messages_loop-Edited ms (message_step json pipeline scope m r).1)

  messages_step-other :
      (doc : V) (r : Rewriting) (key : Text)
      → text_eq (codes "messages") key ≡ false
      → get (messages_step json pipeline scope doc r).0 key ≡ get doc key
  unfolding messages_step
  messages_step-other doc r key n = elim (Option-cases (get doc (codes "messages"))) [
    | inl absent ↦ rw (absent, messages_step)
    | inr (found, present) ↦ elim (Option-cases (as_array found)) [
      | inl other ↦ rw (present, other, messages_step)
      | inr (ms, listed) ↦
          rw (present, listed, messages_step) (laws.get-set_other doc (codes "messages") key _ n)
    ]
  ]

  messages_step-messages :
      (doc : V) (r : Rewriting) (found : V) (ms : List V)
      → get doc (codes "messages") ≡ some found
      → as_array found ≡ some ms
      → get (messages_step json pipeline scope doc r).0 (codes "messages")
        ≡ some (array (messages_loop json pipeline scope ms r).0)
  unfolding messages_step
  messages_step-messages doc r found ms present listed =
      rw (present, listed, messages_step)
        (laws.get-set_same doc (codes "messages") _
          (laws.get-object doc (codes "messages") found present))

  -- Whatever the pipeline does, the rewriting of a document changes no field but `system` and
  -- `messages`, and in the messages nothing but the content of those whose role is `system`: none is
  -- added, dropped or moved. The premise is what the code relies on of JSON values.
  pub rewrite-Rewritten :
      (doc : V) (cache : InstructionCache)
      → Rewritten json pipeline scope doc (rewrite json pipeline scope doc cache).0
  unfolding rewrite
  rewrite-Rewritten doc cache =
      let start : Rewriting = record {
        total_saved = 0;
        any_modified = false;
        strategy = codes "none";
        instruction_cache = cache;
      } in
      let (doc', r) = system_step json pipeline scope doc start in
      record {
        others = λ key n k. messages_step-other doc' r key k ∙ system_step-other doc start key n;
        messages = λ found ms h listed.
            let here : get doc' (codes "messages") ≡ some found =
              system_step-other doc start (codes "messages") refl ∙ h in
            let ms' = (messages_loop json pipeline scope ms r).0 in
            (
              array ms',
              ms',
              messages_step-messages doc' r found ms here listed,
              laws.as_array-array ms',
              messages_loop-Edited ms r,
            );
      }

module _ {V : Type 0} (json : Json V) (x : Externals) (from_slice : List ℕ → Option V)
    (to_vec : V → Option (List ℕ)) where
  -- The body that comes out of an optimisation, beside the body that went in.
  pub data Outcome (d m : Bool) (scope : Option Text) (body : List ℕ) : List ℕ → Type 0 where
    unchanged : Outcome d m scope body body
    rewritten :
        {doc doc' : V} {bytes : List ℕ}
        → from_slice body ≡ some doc
        → Rewritten json (build_pipeline x d m) scope doc doc'
        → to_vec doc' ≡ some bytes
        → Outcome d m scope body bytes
