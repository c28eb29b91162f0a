-- ===== src/Concurrency/Cancel.antt =====
-- A release that is cancelled while it waits for the lock (src/pipeline/concurrency.rs).
