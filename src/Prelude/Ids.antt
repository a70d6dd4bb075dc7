-- ===== src/Prelude/Ids.antt =====
-- uuid.UUID as a number, where uuid.Nil is 0; uuid.NullUUID is an option.
use Prim.Native.Nat.{ℕ}

abbrev pub Uuid : Type 0
Uuid = ℕ
