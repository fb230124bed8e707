-- ===== src/Gateway/BatchTests.antt =====
-- A batch of two events for a tied pair: the one descriptor has five bytes to read, and the other
-- can be written to.
use vncproxy.Prelude.{true, false}
use vncproxy.Marshal
use vncproxy.Chunk
use vncproxy.Polling.Loop.{Ready}

abbrev first_has : Ready
first_has = record { ptr = 1; readable = true; writable = false; broken = false }

abbrev second_takes : Ready
second_takes = record { ptr = 2; readable = false; writable = true; broken = false }
