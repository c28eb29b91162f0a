-- ===== src/Errors/Tests.antt =====
-- Runs and instances of the classification of errors.
use isartor.Common.{
  Text, codes, to_ascii_lowercase, ◌≡◌, refl, List, [], ◌∷◌, ◌++◌, ap, ascii_lower,
}
use isartor.Errors.{
  fatal, retryable, class, classify_error_message, from_llm_error, display, format_error_chain,
}
use isartor.Errors.Chain.{
  KeepsAscii, contains-append_left, contains-append_right, from_llm_error-IsFatal,
}

abbrev causes : List Text
causes =
    codes "request send failed" ∷ codes "request send failed" ∷ codes "HTTP 401 Unauthorized" ∷ []

chain_runs : format_error_chain causes ≡ codes "request send failed: HTTP 401 Unauthorized"
unfolding format_error_chain
chain_runs = refl

display_runs :
    display (from_llm_error to_ascii_lowercase (codes "openai") (codes "connection refused" ∷ []))
    ≡ codes "[openai] connection refused"
unfolding display from_llm_error
display_runs = refl

class_runs :
    class (from_llm_error to_ascii_lowercase (codes "xai") (codes "Connection refused" ∷ []))
    ≡ retryable
unfolding class from_llm_error
class_runs = refl

lower-append :
    (s t : Text) → to_ascii_lowercase (s ++ t) ≡ to_ascii_lowercase s ++ to_ascii_lowercase t
lower-append [] t = refl
lower-append (c ∷ s) t = ap (◌∷◌ (ascii_lower c)) (lower-append s t)

ascii-KeepsAscii : KeepsAscii to_ascii_lowercase
ascii-KeepsAscii p _ a s b h =
    rw (lower-append a (s ++ b), lower-append s b)
      (contains-append_right p (to_ascii_lowercase a) _
        (contains-append_left p (to_ascii_lowercase s) _ h))

from_llm_error-IsFatal_example :
    class (from_llm_error to_ascii_lowercase (codes "openai") causes) ≡ fatal
unfolding classify_error_message
from_llm_error-IsFatal_example =
    from_llm_error-IsFatal to_ascii_lowercase ascii-KeepsAscii (codes "openai") causes refl
