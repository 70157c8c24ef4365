-- ===== src/Storage.antt =====
-- The object store: minio/client.go.
pub mod Bucket
pub mod Objects
pub mod Trees
pub mod Laws
pub mod Archive
pub mod Limit
pub mod Again
pub mod Untouched
pub mod Kept
