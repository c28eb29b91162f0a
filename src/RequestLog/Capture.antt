-- ===== src/RequestLog/Capture.antt =====
-- What is written to the request log for a response (src/core/request_logger.rs).
use isartor.Common.{ℕ, ◌+◌, Text, Bool, Option, List, length, ◌≡◌, if◌then◌else◌}
use isartor.Json.Tree.{Value}
use isartor.RequestLog.{LoggingBody, ResponseLog}

module _ (from_slice : List ℕ → Option Value) (to_string : Value → Option Text)
    (from_utf8_lossy : List ℕ → Text) (written : ResponseLog → Bool) where
  -- One entry has been logged or refused exactly if the entry has been emitted.
  abbrev Counted : LoggingBody → Type 0
  Counted body = length body.log + length body.refused ≡ (if body.emitted then 1 else 0)
