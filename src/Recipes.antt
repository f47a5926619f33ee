-- ===== src/Recipes.antt =====
-- python/diskcache_rs/recipes.py: locks and counters that several users keep in one cache.
pub mod Mutex
pub mod Semaphore
pub mod Reentrant
pub mod Average
pub mod Throttle
pub mod Keys
pub mod Barrier
pub mod Stampede
