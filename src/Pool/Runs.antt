-- ===== src/Pool/Runs.antt =====
-- `give_back` and the end of a pool, when no other thread takes a step between theirs.
use zipfs.Pool.Exchange.{Pool}
