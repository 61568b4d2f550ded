-- ===== src/File/Fork.antt =====
-- kern/fs/fs.c: the table of open files when a process is created, forks and exits. The address that
-- kmalloc returns for the table is a parameter; kfree is left out.
use li_nos.Base.{
  ℕ, zero, suc, ◌+◌, ◌-◌, Option, some, not, ◌&&◌, ◌==◌, ltb, if◌then◌else◌, update, assert, ◌>>=◌,
  ◌>>◌,
}
use li_nos.Vfs.{Vops, inode_ref_inc, inode_open_inc, inode_ref_dec}
use li_nos.File.{
  File, Files, is_live, fd_init, is_none, is_opened, nentry, fd_array_init, fd_array_close,
  fd_array_open,
}

-- The structure that `filesp` points to from then on; with 0 there is none.
unfoldable pub files_create : {S : Type 0} → (filesp : ℕ) → Files S → Files S
files_create filesp s =
    let made = fd_array_init (record s { filesp = filesp; files_count = 0; pwd = 0 }) in
    if filesp == 0 then record s { filesp = 0 } else made

module _ {S : Type 0} (v : Vops S) where
  -- The entry is closed if it is open.
  unfoldable pub close_entry : ℕ → Files S → Option (Files S)
  close_entry fd s =
      let closed = fd_array_close v fd s in
      if is_opened (s.fd_array fd).status then closed else some s

  -- The loop of files_destroy from an entry on, where `left` are left.
  unfoldable pub destroy_from : (left fd : ℕ) → Files S → Option (Files S)
  destroy_from zero fd s = some s
  destroy_from (suc n) fd s = close_entry fd s >>= λ s'.
      assert (is_none (s'.fd_array fd).status) >> destroy_from n (fd + 1) s'

  unfoldable pub files_destroy : Files S → Option (Files S)
  files_destroy s =
      let left = inode_ref_dec v s.pwd s.inodes >>= λ i. some (record s { inodes = i }) in
      assert (not (s.filesp == 0) && (s.files_count == 0))
      >> ((if s.pwd == 0 then some s else left) >>= λ s'. destroy_from nentry 0 s')

  unfoldable pub close_from : (left fd : ℕ) → Files S → Option (Files S)
  close_from zero fd s = some s
  close_from (suc n) fd s = close_entry fd s >>= λ s'. close_from n (fd + 1) s'

  -- All but stdin and stdout.
  unfoldable pub files_closeall : Files S → Option (Files S)
  files_closeall s = assert (is_live s) >> close_from (nentry - 2) 2 s

  -- fd_array_dup from an entry of another table; the inodes are those of the new one.
  unfoldable pub dup_entry : ℕ → (from : ℕ → File) → Files S → Option (Files S)
  dup_entry fd from s =
      let x = from fd in
      let y = record (s.fd_array fd) {
        status = fd_init;
        pos = x.pos;
        readable = x.readable;
        writable = x.writable;
        node = x.node;
      } in
      let copied = fd_array_open fd (record s {
        fd_array = update s.fd_array fd y;
        inodes = inode_open_inc x.node (inode_ref_inc x.node s.inodes);
      }) in
      if is_opened x.status then copied else some s

  unfoldable pub dup_from : (left fd : ℕ) → (from : ℕ → File) → Files S → Option (Files S)
  dup_from zero fd from s = some s
  dup_from (suc n) fd from s = dup_entry fd from s >>= λ s'. dup_from n (fd + 1) from s'

  -- `to->pwd = from->pwd`, and one more reference to it.
  unfoldable pub dup_pwd : (pwd : ℕ) → Files S → Files S
  dup_pwd pwd s = record s {
    pwd = pwd;
    inodes = if pwd == 0 then s.inodes else inode_ref_inc pwd s.inodes;
  }

  -- The inodes are those that `to` comes with.
  unfoldable pub dup_files : (to from : Files S) → Option (Files S)
  dup_files to from =
      assert (not (to.filesp == 0) && not (from.filesp == 0))
      >> (assert ((to.files_count == 0) && ltb 0 from.files_count)
          >> dup_from nentry 0 from.fd_array (dup_pwd from.pwd to))
