-- ===== src/File.antt =====
-- kern/fs/file.c: the table of open files of a process, over the virtual file system of `Vfs`, whose state
-- of inodes it keeps. `none` is a failed `assert` or a panic below. Nothing else uses a table between
-- the steps of one call.
pub mod Calls
pub mod Fork
pub mod Free
pub mod Entry
pub mod Open
pub mod Dup
mod Tests
use li_nos.Base.{
  ℕ, zero, suc, ◌+◌, ◌-◌, ◌*◌, ◌/◌, ◌%◌, ◌^◌, Bool, true, false, not, ◌&&◌, ◌||◌, Option, none,
  some, if◌then◌else◌, ◌==◌, ltb, update, assert, ◌>>=◌, ◌>>◌,
}
use li_nos.Kernel.{add32}
use li_nos.Vfs.{Result, ok, err, e_inval, Inodes, Vops, inode_ref_inc, inode_open_inc, vfs_close}

pub data Status : Type 0 where
  fd_none fd_init fd_opened fd_closed : Status

abbrev pub is_none : Status → Bool
is_none fd_none = true
is_none _ = false

abbrev pub is_init : Status → Bool
is_init fd_init = true
is_init _ = false

abbrev pub is_opened : Status → Bool
is_opened fd_opened = true
is_opened _ = false

abbrev pub is_closed : Status → Bool
is_closed fd_closed = true
is_closed _ = false

-- `pos` is the 32 bits of an `off_t`; `node` is an address, 0 for `NULL`. `open_count` is an `int` that
-- is only decremented when positive.
pub record File : Type 0 where
  pub status : Status
  pub readable : Bool
  pub writable : Bool
  pub fd : ℕ
  pub pos : ℕ
  pub node : ℕ
  pub open_count : ℕ

abbrev pub e_busy : ℕ
e_busy = 15

abbrev pub e_max_open : ℕ
e_max_open = 22

-- FILES_STRUCT_NENTRY: a page, less the 24 bytes of struct files_struct, in entries of 28 bytes.
abbrev pub nentry : ℕ
nentry = (4096 - 24) / 28

-- `current->filesp` is the address of the structure, 0 for `NULL`; the fields behind it are those of the
-- structure. `pwd` is the inode of the working directory, 0 for `NULL`. The count of processes is an
-- `int` that is far from its bounds.
pub record Files (S : Type 0) : Type 0 where
  pub filesp : ℕ
  pub files_count : ℕ
  pub pwd : ℕ
  pub fd_array : ℕ → File
  pub inodes : Inodes S

-- The assertion of get_fd_array.
abbrev pub is_live : {S : Type 0} → Files S → Bool
is_live s = not (s.filesp == 0) && ltb 0 s.files_count

-- A descriptor that was asked for, or `NO_FD`. A negative one that is not `NO_FD` is out of range like one
-- that is too large.
pub data Wanted : Type 0 where
  no_fd : Wanted
  at : ℕ → Wanted

abbrev pub set_file : {S : Type 0} → ℕ → File → Files S → Files S
set_file fd x s = record s { fd_array = update s.fd_array fd x }

unfoldable pub fd_array_init : {S : Type 0} → Files S → Files S
fd_array_init s = record s {
  fd_array = λ i.
      if ltb i nentry
      then record (s.fd_array i) { open_count = 0; status = fd_none; fd = i }
      else s.fd_array i;
}

-- The first free entry from `fd` on, where `left` are left.
unfoldable pub first_free : (left : ℕ) → (ℕ → File) → (fd : ℕ) → Option ℕ
first_free zero a fd = none
first_free (suc n) a fd =
    let rest = first_free n a (fd + 1) in if is_none (a fd).status then some fd else rest

-- The part of fd_array_alloc behind the label `found`.
unfoldable pub found_fd : {S : Type 0} → ℕ → Files S → Option (Result ℕ × Files S)
found_fd fd s =
    let x = s.fd_array fd in
    assert (x.open_count == 0)
    >> some (ok fd, set_file fd (record x { status = fd_init; node = 0 }) s)

unfoldable pub fd_array_alloc : {S : Type 0} → Wanted → Files S → Option (Result ℕ × Files S)
fd_array_alloc no_fd s = assert (is_live s) >> elim (first_free nentry s.fd_array 0) [
  | none ↦ some (err e_max_open, s)
  | some fd ↦ found_fd fd s
]
fd_array_alloc (at fd) s =
    let busy = if is_none (s.fd_array fd).status then found_fd fd s else some (err e_busy, s) in
    assert (is_live s) >> (if ltb fd nentry then busy else some (err e_inval, s))

-- fd2file, with the file named by its index.
unfoldable pub fd2file : {S : Type 0} → ℕ → Files S → Option Bool
fd2file fd s =
    let x = s.fd_array fd in
    if ltb fd nentry
    then assert (is_live s) >> some (is_opened x.status && (x.fd == fd))
    else some false

unfoldable pub file_testfd :
    {S : Type 0} → (fd : ℕ) (readable writable : Bool) → Files S → Option Bool
file_testfd fd readable writable s = fd2file fd s >>= λ there. some (
    if not there
    then false
    else if readable && not (s.fd_array fd).readable
    then false
    else if writable && not (s.fd_array fd).writable
    then false
    else true)

unfoldable pub fd_array_acquire : {S : Type 0} → ℕ → Files S → Option (Files S)
fd_array_acquire fd s =
    let x = s.fd_array fd in
    assert (is_opened x.status) >> some (set_file fd (record x { open_count = x.open_count + 1 }) s)

unfoldable pub fd_array_open : {S : Type 0} → ℕ → Files S → Option (Files S)
fd_array_open fd s =
    let x = s.fd_array fd in
    assert (is_init x.status && not (x.node == 0))
    >> some (set_file fd (record x { status = fd_opened; open_count = x.open_count + 1 }) s)

module _ {S : Type 0} (v : Vops S) where
  unfoldable pub fd_array_free : ℕ → Files S → Option (Files S)
  fd_array_free fd s =
      let x = s.fd_array fd in
      let closed = vfs_close v x.node s.inodes >>= λ i.
      some (set_file fd (record x { status = fd_none }) (record s { inodes = i })) in
      assert (is_init x.status || is_closed x.status)
      >> (assert (x.open_count == 0)
          >> (if is_closed x.status
              then closed
              else some (set_file fd (record x { status = fd_none }) s)))

  -- `if (fopen_count_dec(file) == 0) fd_array_free(file);`
  unfoldable pub count_down : ℕ → Files S → Option (Files S)
  count_down fd s =
      let x = s.fd_array fd in
      let s' = set_file fd (record x { open_count = x.open_count - 1 }) s in
      if x.open_count - 1 == 0 then fd_array_free fd s' else some s'

  unfoldable pub fd_array_release : ℕ → Files S → Option (Files S)
  fd_array_release fd s =
      let x = s.fd_array fd in
      assert (is_opened x.status || is_closed x.status)
      >> (assert (ltb 0 x.open_count) >> count_down fd s)

  unfoldable pub fd_array_close : ℕ → Files S → Option (Files S)
  fd_array_close fd s =
      let x = s.fd_array fd in
      assert (is_opened x.status)
      >> (assert (ltb 0 x.open_count)
          >> count_down fd (set_file fd (record x { status = fd_closed }) s))

  unfoldable pub fd_array_dup : (to from : ℕ) → Files S → Option (Files S)
  fd_array_dup to from s =
      let x = s.fd_array from in
      let y = record (s.fd_array to) {
        pos = x.pos;
        readable = x.readable;
        writable = x.writable;
        node = x.node;
      } in
      assert (is_init (s.fd_array to).status && is_opened x.status)
      >> fd_array_open to (
          set_file to y
            (record s { inodes = inode_open_inc x.node (inode_ref_inc x.node s.inodes) }))
