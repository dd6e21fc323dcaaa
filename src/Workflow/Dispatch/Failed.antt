-- ===== src/Workflow/Dispatch/Failed.antt =====
-- What a failure of an executor leaves.
use tuixiu.Db.Types.{Db}
