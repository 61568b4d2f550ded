-- ===== src/Iobuf/Tests.antt =====
-- A request of four bytes at 100, of which six are asked for.
use li_nos.Base.{true}
use li_nos.Memory.{Bytes}
use li_nos.Iobuf.{Iobuf, iobuf_move}
use li_nos.Iobuf.Move.{Moved, iobuf_move-Moved}

abbrev four : Iobuf
four = record { io_base = 100; io_offset = 8; io_len = 10; io_resid = 4 }

abbrev letters : Bytes
letters q = q

iobuf_move-Moved_example : Moved 200 6 true four letters (iobuf_move 200 6 true four letters)
iobuf_move-Moved_example = iobuf_move-Moved 200 6 true four letters
