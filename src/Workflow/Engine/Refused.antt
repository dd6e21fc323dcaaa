-- ===== src/Workflow/Engine/Refused.antt =====
-- Creations that are refused.
use tuixiu.Db.Types.{Db}
use tuixiu.Db.Atomic.{Atomic}
