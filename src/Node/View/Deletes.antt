-- ===== src/Node/View/Deletes.antt =====
-- What readers see after a delete of src/shardcache.c.
use libgroupcache.Node.State.{Node}
