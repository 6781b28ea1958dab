-- ===== src/Geo/Kinds.antt =====
-- What package reflect tells of a value, as far as koji_client/admin.go tells it apart.
pub data Kind : Type 0 where
  string bool map slice int8 int16 int32 int64 uint8 uint16 uint32 uint64 float32 float64 : Kind
  invalid int uint rest : Kind
