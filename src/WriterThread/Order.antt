-- ===== src/WriterThread/Order.antt =====
-- What becomes of the operations that the writer thread of src/db/write_thread.cpp takes.
use caudio.Prelude.{List}
use caudio.WriterThread.{WriterThread}
use caudio.WriterThread.Kept.{Kept}
