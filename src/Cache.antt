-- ===== src/Cache.antt =====
-- The class `Cache` of python/diskcache_rs/cache.py.
pub mod State
pub mod Codec
pub mod Write
pub mod Read
pub mod View
pub mod Remove
pub mod Update
pub mod Laws
pub mod Listing
pub mod Memo
pub mod Check
pub mod Settings
pub mod Queue
