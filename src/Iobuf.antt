-- ===== src/Iobuf.antt =====
-- kern/fs/iobuf.c over a memory of bytes. The addresses and the offset stay below 2^32. `none` is a failed
-- `assert`.
pub mod Move
mod Tests
use li_nos.Base.{
  ℕ, ◌+◌, ◌-◌, Bool, true, false, Option, none, some, if◌then◌else◌, ◌==◌, ltb, leb, assert, ◌>>=◌,
  ◌>>◌,
}
use li_nos.Memory.{Bytes, memmove, memset}

pub record Iobuf : Type 0 where
  pub io_base : ℕ
  pub io_offset : ℕ
  pub io_len : ℕ
  pub io_resid : ℕ

pub iobuf_init : (base len offset : ℕ) → Iobuf
iobuf_init base len offset = record {
  io_base = base;
  io_offset = offset;
  io_len = len;
  io_resid = len;
}

abbrev pub iobuf_used : Iobuf → ℕ
iobuf_used iob = iob.io_len - iob.io_resid

pub iobuf_skip : ℕ → Iobuf → Option Iobuf
iobuf_skip n iob =
    assert (leb n iob.io_resid)
    >> some (record iob {
      io_base = iob.io_base + n;
      io_offset = iob.io_offset + n;
      io_resid = iob.io_resid - n;
    })

-- How much is moved.
abbrev pub amount : (len : ℕ) → Iobuf → ℕ
amount len iob = if ltb len iob.io_resid then len else iob.io_resid

-- Whether the whole length was moved (0, else -E_NO_MEM), `*copiedp`, the buffer and the memory.
pub iobuf_move : (buf len : ℕ) (m2b : Bool) → Iobuf → Bytes → Option (Bool × ℕ × Iobuf × Bytes)
iobuf_move buf len m2b iob t =
    let alen = amount len iob in
    let t' = if m2b then memmove iob.io_base buf alen t else memmove buf iob.io_base alen t in
    let run = iobuf_skip alen iob >>= λ iob'. some (len - alen == 0, alen, iob', t') in
    if ltb 0 alen then run else some (len == 0, alen, iob, t)

pub iobuf_move_zeros : (len : ℕ) → Iobuf → Bytes → Option (Bool × ℕ × Iobuf × Bytes)
iobuf_move_zeros len iob t =
    let alen = amount len iob in
    let run = iobuf_skip alen iob >>= λ iob'.
    some (len - alen == 0, alen, iob', memset iob.io_base 0 alen t) in
    if ltb 0 alen then run else some (len == 0, alen, iob, t)
