-- ===== src/Stdin/Tests.antt =====
-- Runs on the buffer at 100, with one byte, and a process that waits.
use li_nos.Base.{◌≡◌, refl, arith, [], ◌∷◌}
use li_nos.Wait.Sample.{one_waits, all_ksem, one_waits-IsWaiting}
use li_nos.Stdin.{Stdin, dev_stdin_write, read_bytes}
use li_nos.Stdin.Unread.{unread}
use li_nos.Stdin.Read.{read_bytes-unread}
use li_nos.Stdin.Write.{Written, dev_stdin_write-Written}

abbrev one_byte : Stdin
one_byte = record {
  stdin_buffer = λ i. i;
  p_rpos = 5000;
  p_wpos = 5001;
  wait_queue = 100;
  sync = one_waits;
}

read_bytes_two : (read_bytes 2 one_byte).0 ≡ 904 ∷ []
unfolding read_bytes
read_bytes_two = refl

dev_stdin_write-Written_example : Written all_ksem 65 one_byte (dev_stdin_write 2 65 one_byte)
dev_stdin_write-Written_example =
    dev_stdin_write-Written all_ksem 2 65 one_byte (omega arith, omega arith) one_waits-IsWaiting
      (omega arith) (λ e. omega arith)

read_bytes-unread_example :
    ((read_bytes 2 one_byte).0 ≡ 904 ∷ []) × (unread (read_bytes 2 one_byte).1 ≡ [])
read_bytes-unread_example = read_bytes-unread 2 one_byte
