-- ===== src/Index/Record.antt =====
-- server.c: what `parse` records of one word, as long as the table is not resized.
pub mod Known
pub mod Made
pub mod Unknown
pub mod Word
