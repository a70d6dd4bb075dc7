-- ===== src/Token/Cleanup.antt =====
-- CleanupExpired of internal/token/store.go, and the use of a token after it.
use aria.Token.{Token}
