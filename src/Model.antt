-- ===== src/Model.antt =====
-- The records that every layer shares (internal/model/model.go), the values of encoding/json that
-- the program passes through, and errors as values.
pub mod Json
pub mod Failure
pub mod Records
