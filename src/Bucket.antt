-- ===== src/Bucket.antt =====
-- The operations of src/couchbase/bucket/*.c on one document or on a map of them: how results are
-- collected (Results), how commands are scheduled (Schedule), and the operations of each file.
pub mod Options
pub mod Results
pub mod Schedule
pub mod Store
pub mod Get
pub mod Durability
pub mod Other
pub mod Empty
