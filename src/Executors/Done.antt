-- ===== src/Executors/Done.antt =====
-- The system steps that are done.
use tuixiu.Db.Types.{Run, RunStatus, Db}

abbrev pub completed_status : Run → Run
completed_status r = record r { status = RunStatus.completed }
