-- ===== src/File/Calls.antt =====
-- The calls of kern/fs/file.c: open, close, read, write, seek, fstat, fsync and dup.
use li_nos.Base.{
  ℕ, ◌/◌, ◌%◌, Bool, true, false, not, Option, none, some, if◌then◌else◌, ◌==◌, ◌>>=◌,
}
use li_nos.Kernel.{add32}
use li_nos.Vfs.{Result, ok, err, e_inval, Inodes, Vops, o_accmode, vfs_open, vfs_close}
use li_nos.File.{
  File, Files, Wanted, no_fd, is_opened, set_file, fd2file, fd_array_alloc, fd_array_free,
  fd_array_acquire, fd_array_release, fd_array_open, fd_array_close, fd_array_dup,
}

-- `open_flags & O_APPEND`
abbrev pub has_append_flag : ℕ → Bool
has_append_flag flags = (flags / 32) % 2 == 1

-- What the access mode allows: reading and writing.
abbrev pub access_mode : ℕ → Option (Bool × Bool)
access_mode flags =
    let m = o_accmode flags in
    if m == 0
    then some (true, false)
    else if m == 1
    then some (false, true)
    else if m == 2
    then some (true, true)
    else none

-- `pos += stat->st_size`, if the size is known.
abbrev behind_end : ℕ → Result ℕ → Result ℕ
behind_end pos (ok n) = ok (add32 pos n)
behind_end pos (err e) = err e

module _ {S : Type 0} (v : Vops S) where
  -- The rest of file_open when the inode is open and the position is known.
  unfoldable pub open_at :
      (fd node pos : ℕ) (readable writable : Bool) → Files S → Option (Result ℕ × Files S)
  open_at fd node pos readable writable s =
      let x = record (s.fd_array fd) {
        pos = pos;
        node = node;
        readable = readable;
        writable = writable;
      } in
      fd_array_open fd (set_file fd x s) >>= λ s'. some (ok (s'.fd_array fd).fd, s')

  -- The rest of file_open when the inode is open.
  unfoldable pub open_node :
      (fd node : ℕ) (append readable writable : Bool) → Files S → Option (Result ℕ × Files S)
  open_node fd node append readable writable s =
      let sized = v.vop_fstat node s.inodes >>= λ r. elim r [
        | ok size ↦ open_at fd node size readable writable s
        | err e ↦ vfs_close v node s.inodes >>= λ i.
            fd_array_free v fd (record s { inodes = i }) >>= λ s'. some (err e, s')
      ] in
      if append then sized else open_at fd node 0 readable writable s

  -- The rest of file_open when the entry is there.
  unfoldable pub open_entry :
      (fd path open_flags : ℕ) (readable writable : Bool) → Files S → Option (Result ℕ × Files S)
  open_entry fd path flags readable writable s = vfs_open v path flags s.inodes >>= λ (r, i).
      elim r [
        | ok node ↦
            open_node fd node (has_append_flag flags) readable writable (record s { inodes = i })
        | err e ↦ fd_array_free v fd (record s { inodes = i }) >>= λ s'. some (err e, s')
      ]

  unfoldable pub file_open : (path open_flags : ℕ) → Files S → Option (Result ℕ × Files S)
  file_open path flags s = elim (access_mode flags) [
    | none ↦ some (err e_inval, s)
    | some (readable, writable) ↦ fd_array_alloc no_fd s >>= λ (r, s1). elim r [
      | ok fd ↦ open_entry fd path flags readable writable s1
      | err e ↦ some (err e, s1)
    ]
  ]

  unfoldable pub file_close : ℕ → Files S → Option (Result (Unit {0}) × Files S)
  file_close fd s =
      let closed = fd_array_close v fd s >>= λ s'. some (ok tt, s') in
      fd2file fd s >>= λ there. if there then closed else some (err e_inval, s)

  -- After vop_read or vop_write: the position moves on if the file is still open.
  unfoldable pub moved : (fd copied : ℕ) → Files S → Option (Files S)
  moved fd copied s =
      let x = s.fd_array fd in
      let y = if is_opened x.status then record x { pos = add32 x.pos copied } else x in
      fd_array_release v fd (set_file fd y s)

  -- The result is with `*copied_store`.
  unfoldable pub file_read : (fd len : ℕ) → Files S → Option (Result (Unit {0}) × ℕ × Files S)
  file_read fd len s =
      let run = fd_array_acquire fd s >>= λ s1.
      let x = s1.fd_array fd in
      v.vop_read x.node x.pos len s1.inodes >>= λ (r, copied, i).
      moved fd copied (record s1 { inodes = i }) >>= λ s2. some (r, copied, s2) in
      let failed = some (err e_inval, 0, s) in
      fd2file fd s >>= λ there.
      if not there then failed else if not (s.fd_array fd).readable then failed else run

  unfoldable pub file_write : (fd len : ℕ) → Files S → Option (Result (Unit {0}) × ℕ × Files S)
  file_write fd len s =
      let run = fd_array_acquire fd s >>= λ s1.
      let x = s1.fd_array fd in
      v.vop_write x.node x.pos len s1.inodes >>= λ (r, copied, i).
      moved fd copied (record s1 { inodes = i }) >>= λ s2. some (r, copied, s2) in
      let failed = some (err e_inval, 0, s) in
      fd2file fd s >>= λ there.
      if not there then failed else if not (s.fd_array fd).writable then failed else run

  -- The position that file_seek asks for. `pos` is the 32 bits of an `off_t`.
  unfoldable pub seek_target : (x : File) (pos whence : ℕ) → Inodes S → Option (Result ℕ)
  seek_target x pos whence i =
      let from_end = v.vop_fstat x.node i >>= λ r. some (behind_end pos r) in
      if whence == 0
      then some (ok pos)
      else if whence == 1
      then some (ok (add32 pos x.pos))
      else if whence == 2
      then from_end
      else some (err e_inval)

  unfoldable pub seek_to : (fd : ℕ) → Result ℕ → Files S → Option (Result (Unit {0}) × Files S)
  seek_to fd (err e) s = some (err e, s)
  seek_to fd (ok pos) s = v.vop_tryseek (s.fd_array fd).node pos s.inodes >>= λ r. elim r [
    | err e ↦ some (err e, s)
    | ok u ↦ some (ok tt, set_file fd (record (s.fd_array fd) { pos = pos }) s)
  ]

  unfoldable pub file_seek : (fd pos whence : ℕ) → Files S → Option (Result (Unit {0}) × Files S)
  file_seek fd pos whence s =
      let run = fd_array_acquire fd s >>= λ s1.
      seek_target (s1.fd_array fd) pos whence s1.inodes >>= λ target.
      seek_to fd target s1 >>= λ (r, s2). fd_array_release v fd s2 >>= λ s3. some (r, s3) in
      fd2file fd s >>= λ there. if there then run else some (err e_inval, s)

  -- The size, for the structure that is filled.
  unfoldable pub file_fstat : ℕ → Files S → Option (Result ℕ × Files S)
  file_fstat fd s =
      let run = fd_array_acquire fd s >>= λ s1. v.vop_fstat (s1.fd_array fd).node s1.inodes >>= λ r.
      fd_array_release v fd s1 >>= λ s2. some (r, s2) in
      fd2file fd s >>= λ there. if there then run else some (err e_inval, s)

  unfoldable pub file_fsync : ℕ → Files S → Option (Result (Unit {0}) × Files S)
  file_fsync fd s =
      let run = fd_array_acquire fd s >>= λ s1.
      v.vop_fsync (s1.fd_array fd).node s1.inodes >>= λ (r, i).
      fd_array_release v fd (record s1 { inodes = i }) >>= λ s2. some (r, s2) in
      fd2file fd s >>= λ there. if there then run else some (err e_inval, s)

  unfoldable pub file_dup : (fd1 : ℕ) (fd2 : Wanted) → Files S → Option (Result ℕ × Files S)
  file_dup fd1 fd2 s =
      let run = fd_array_alloc fd2 s >>= λ (r, s1). elim r [
        | err e ↦ some (err e, s1)
        | ok to ↦ fd_array_dup v to fd1 s1 >>= λ s2. some (ok (s2.fd_array to).fd, s2)
      ] in
      fd2file fd1 s >>= λ there. if there then run else some (err e_inval, s)
