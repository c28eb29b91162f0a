-- ===== src/RequestLog/Prefix.antt =====
-- What is captured of a response body (src/core/request_logger.rs).
use isartor.Common.{
  ℕ, zero, suc, ◌+◌, ◌-◌, ◌≤◌, ◌<◌, Text, Bool, true, false, Bool-cases, ltb, leb, ltb→lt, Option,
  none, some, List, [], ◌∷◌, ◌++◌, length, length-append, take, min, ◌≡◌, inl, inr, refl, ap, ◌∙◌,
  sym, if◌then◌else◌, if_both, subst, arith, is_empty, ◌==◌, ◌||◌, ==_iff,
}
use mathlib.Core.List.{append-nil, append_assoc}
use isartor.Json.Tree.{Value}
use isartor.RequestLog.{
  LoggingBody, ResponseLog, Poll, frame, ended, request_log_max_body_bytes, new, capture, entry_of,
  finish, poll_frame, polled,
}

take_front : (m : ℕ) (s t : List ℕ) → m ≤ length s → take m (s ++ t) ≡ take m s
take_front zero s t h = refl
take_front (suc m) [] t h = absurd (omega arith)
take_front (suc m) (c ∷ s) t h = ap (λ (x : List ℕ). c ∷ x) (take_front m s t (omega arith))

take_all : (m : ℕ) (s : List ℕ) → length s ≤ m → take m s ≡ s
take_all zero [] h = refl
take_all zero (c ∷ s) h = absurd (omega arith)
take_all (suc m) [] h = refl
take_all (suc m) (c ∷ s) h = ap (λ (x : List ℕ). c ∷ x) (take_all m s (omega arith))

take_past : (m : ℕ) (s t : List ℕ) → length s ≤ m → take m (s ++ t) ≡ s ++ take (m - length s) t
take_past m [] t h = ap (λ k. take k t) (omega arith)
take_past zero (c ∷ s) t h = absurd (omega arith)
take_past (suc m) (c ∷ s) t h =
    ap (λ (x : List ℕ). c ∷ x)
      (take_past m s t (omega arith) ∙ ap (λ k. s ++ take k t) (omega arith))

take-min : (m : ℕ) (s : List ℕ) → take (min m (length s)) s ≡ take m s
take-min m s = elim (Bool-cases (leb m (length s))) [
  | inl h ↦ ap (λ k. take k s) (ground arith)
  | inr h ↦
      ap (λ k. take k s) (ground arith)
      ∙ take_all (length s) s (omega arith)
      ∙ sym (take_all m s (ground arith))
]

lt→ltb : (a b : ℕ) → a < b → ltb a b ≡ true
lt→ltb a b h = ground arith

ltb_false→le : (a b : ℕ) → ltb a b ≡ false → b ≤ a
ltb_false→le a b h = ground arith

take_room : (m n : ℕ) (t : List ℕ) → n ≤ m → take (min (m - n) (length t)) t ≡ take (m - n) t
take_room m n t h = take-min (m - n) t

-- Whether a part of `k` bytes, of which the room after `n` bytes is taken, goes over the limit.
over_limit : (m n k : ℕ) → n ≤ m → (if ltb (min (m - n) k) k then true else false) ≡ ltb m (n + k)
over_limit m n k h = ground arith

abbrev pub joined : List (List ℕ) → List ℕ
joined [] = []
joined (bytes ∷ parts) = bytes ++ joined parts

-- The polls of a stream that gives these parts and then ends.
abbrev pub streamed : List (List ℕ) → List Poll
streamed [] = ended ∷ []
streamed (bytes ∷ parts) = frame (some bytes) ∷ streamed parts

-- The body has captured the bytes of the stream up to the limit, and has noted whether there were more.
abbrev pub Captures : List ℕ → LoggingBody → Type 0
Captures bytes body =
    (body.captured ≡ take request_log_max_body_bytes bytes)
    × (body.truncated ≡ ltb request_log_max_body_bytes (length bytes))

capture-Captures :
    (sent : List ℕ) (c : ℕ) (cs : List ℕ) (body : LoggingBody)
    → Captures sent body
    → Captures (sent ++ c ∷ cs) (capture (c ∷ cs) body)
unfolding capture
capture-Captures sent c cs body (a, b) =
    let m = request_log_max_body_bytes in
    let more = c ∷ cs in
    let total = length-append sent more in
    elim (Bool-cases body.truncated) [
      | inl t ↦
          let over = ltb→lt m (length sent) (sym b ∙ t) in
          let still : true ≡ ltb m (length (sent ++ more)) =
            sym (lt→ltb m (length (sent ++ more)) (omega (arith, total, over))) in
          rw (t, capture) (a ∙ sym (take_front m sent more (omega (arith, over))), still)
      | inr t ↦
          let within : length sent ≤ m = ltb_false→le m (length sent) (sym b ∙ t) in
          let same : body.captured ≡ sent = a ∙ take_all m sent within in
          let long : length body.captured ≡ length sent = ap length same in
          elim (Bool-cases (m - length body.captured == 0)) [
            | inl z ↦
                let full = (==_iff (m - length body.captured) 0).0 z in
                let now : true ≡ ltb m (length (sent ++ more)) =
                  sym (lt→ltb m (length (sent ++ more)) (omega (arith, total, full, long))) in
                rw (t, z, capture)
                  (a ∙ sym (take_front m sent more (omega (arith, full, long))), now)
            | inr z ↦
                let k = length more in
                let kept : body.captured ++ take (min (m - length body.captured) k) more
                    ≡ take m (sent ++ more) =
                  ap (λ (x : List ℕ). x ++ take (min (m - length x) k) more) same
                  ∙ ap (λ (x : List ℕ). sent ++ x) (take_room m (length sent) more within)
                  ∙ sym (take_past m sent more within) in
                let flag : (if ltb (min (m - length body.captured) k) k then true else false)
                    ≡ ltb m (length (sent ++ more)) =
                  ap (λ n. if ltb (min (m - n) k) k then true else false) long
                  ∙ over_limit m (length sent) k within
                  ∙ ap (ltb m) (sym total) in
                rw (t, z, capture) (kept, flag)
          ]
    ]

-- The body has captured a stream so far and has logged nothing.
abbrev Streams : List ℕ → LoggingBody → Type 0
Streams sent body = Captures sent body × ((body.emitted ≡ false) × (body.log ≡ []))

capture_empty : (body : LoggingBody) → capture [] body ≡ body
unfolding capture
capture_empty body = elim (Bool-cases body.truncated) [
  | inl t ↦ rw (t, capture) refl
  | inr t ↦ rw (t, capture) refl
]

capture-Streams :
    (sent bytes : List ℕ) (body : LoggingBody)
    → Streams sent body
    → Streams (sent ++ bytes) (capture bytes body)
unfolding capture
capture-Streams sent [] body h =
    rw (capture_empty body) (subst (λ (x : List ℕ). Streams x body) (sym (append-nil sent)) h)
capture-Streams sent (c ∷ cs) body (h, silent) = (
  capture-Captures sent c cs body h,
  if_both (λ (b : LoggingBody). (b.emitted ≡ false) × (b.log ≡ []))
      (body.truncated || is_empty (c ∷ cs)) _ _ silent
      (if_both (λ (b : LoggingBody). (b.emitted ≡ false) × (b.log ≡ []))
        (request_log_max_body_bytes - length body.captured == 0) _ _ silent silent),
)

module _ (from_slice : List ℕ → Option Value) (to_string : Value → Option Text)
    (from_utf8_lossy : List ℕ → Text) (written : ResponseLog → Bool) where
  abbrev entry : List ℕ → Bool → ResponseLog
  entry bytes truncated = entry_of from_slice to_string from_utf8_lossy bytes truncated none

  -- What an entry leaves in an empty log.
  abbrev pub logged : ResponseLog → List ResponseLog
  logged e = if written e then e ∷ [] else []

  finish-Streams :
      (sent : List ℕ) (body : LoggingBody)
      → Streams sent body
      → (finish from_slice to_string from_utf8_lossy written none body).log
        ≡ logged (
            entry
              (take request_log_max_body_bytes sent)
              (ltb request_log_max_body_bytes (length sent)))
  unfolding finish
  finish-Streams sent body ((a, b), (e, l)) =
      let made = entry body.captured body.truncated in
      let changed : (finish from_slice to_string from_utf8_lossy written none body).log
          ≡ (if written made then body.log ++ made ∷ [] else body.log) =
        rw (e, finish) refl in
      changed
      ∙ ap (λ (x : List ResponseLog). if written made then x ++ made ∷ [] else x) l
      ∙ ap (λ (x : List ℕ). logged (entry x body.truncated)) a
      ∙ ap (λ x. logged (entry (take request_log_max_body_bytes sent) x)) b

  streamed-Streams :
      (parts : List (List ℕ)) (sent : List ℕ) (body : LoggingBody)
      → Streams sent body
      → (polled from_slice to_string from_utf8_lossy written (streamed parts) body).log
        ≡ logged (
            entry
              (take request_log_max_body_bytes (sent ++ joined parts))
              (ltb request_log_max_body_bytes (length (sent ++ joined parts))))
  unfolding polled poll_frame
  streamed-Streams [] sent body h =
      finish-Streams (sent ++ []) body
        (subst (λ (x : List ℕ). Streams x body) (sym (append-nil sent)) h)
  streamed-Streams (bytes ∷ parts) sent body h =
      streamed-Streams parts (sent ++ bytes) (capture bytes body)
        (capture-Streams sent bytes body h)
      ∙ ap
          (λ (x : List ℕ).
            logged (
              entry (take request_log_max_body_bytes x)
                (ltb request_log_max_body_bytes (length x))))
          (append_assoc sent bytes (joined parts))

  -- A response body that streams to its end, in whatever parts it comes, is logged in one entry: the sanitized
  -- text of its first 16384 bytes, marked as truncated if it has more or if that text is cut again. If
  -- the entry cannot be written, the log gets none.
  pub polled-streamed :
      (parts : List (List ℕ))
      → (polled from_slice to_string from_utf8_lossy written (streamed parts) new).log
        ≡ logged (
            entry_of from_slice to_string from_utf8_lossy
              (take request_log_max_body_bytes (joined parts))
              (ltb request_log_max_body_bytes (length (joined parts)))
              none)
  polled-streamed parts = streamed-Streams parts [] new ((refl, refl), (refl, refl))
