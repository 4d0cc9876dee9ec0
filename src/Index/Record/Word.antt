-- ===== src/Index/Record/Word.antt =====
-- server.c: the end of the loop of `parse`, on both of its branches.
use search_engine.Index.{Index}
