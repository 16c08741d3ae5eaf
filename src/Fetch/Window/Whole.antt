-- ===== src/Fetch/Window/Whole.antt =====
-- All pieces of a value, for shardcache_get_async_helper of src/shardcache.c.
use libgroupcache.Fetch.Window.{Window}
