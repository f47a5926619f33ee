-- ===== src/Recipes/Mutex/Race.antt =====
-- Users of one `Lock` who all look for its key before any of them writes it.
use diskcache_rs.Cache.State.{Cache}
use diskcache_rs.Host.{Host}
