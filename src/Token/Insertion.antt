-- ===== src/Token/Insertion.antt =====
-- Create of internal/token/store.go: what is read after it.
use aria.Token.{Token}
