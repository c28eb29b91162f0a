-- ===== src/Gateway/Blocked.antt =====
-- Who is let in (src/main.rs, src/middleware/auth.rs).
use isartor.AppState.{AppState}
