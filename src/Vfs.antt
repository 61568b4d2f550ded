-- ===== src/Vfs.antt =====
-- kern/fs/vfs/inode.c and kern/fs/vfs/vfsfile.c: the reference and open counts of inodes, and the opening
-- and closing of a file. The operations of the file systems, which are called through the function
-- pointers of an inode, and the walk of a path to its inode are a parameter. An inode is named by its
-- address, 0 for `NULL`; `none` is a failed `assert` or a panic below.
pub mod Filled
use li_nos.Base.{
  ℕ, ◌+◌, ◌-◌, ◌/◌, ◌%◌, Bool, true, not, ◌&&◌, ◌||◌, Option, some, if◌then◌else◌, ◌==◌, ltb,
  update, assert, ◌>>=◌, ◌>>◌,
}

-- 0, or the negative of an error number of libs/error.h.
pub data Result (A : Type 0) : Type 0 where
  ok : A → Result A
  err : ℕ → Result A

abbrev pub e_inval : ℕ
e_inval = 3

abbrev pub e_noent : ℕ
e_noent = 16

abbrev pub e_exists : ℕ
e_exists = 23

-- The counts of the inodes, and the rest of the state of the file systems.
pub record Inodes (S : Type 0) : Type 0 where
  pub ref_count : ℕ → ℕ
  pub open_count : ℕ → ℕ
  pub rest : S

-- The operations of inode.h that go through function pointers, and the walk of a path (vfslookup.c). Reads
-- and writes get an offset and a length, and return what they moved. `vop_create` leaves an inode in
-- `*node_store`, whether it succeeds or not.
pub record Vops (S : Type 0) : Type 0 where
  pub vfs_lookup : (path : ℕ) → Inodes S → Option (Result ℕ × Inodes S)
  pub vfs_lookup_parent : (path : ℕ) → Inodes S → Option (Result (ℕ × ℕ) × Inodes S)
  pub vop_create : (dir name : ℕ) (excl : Bool) → Inodes S → Option (ℕ × Inodes S)
  pub vop_open : (node open_flags : ℕ) → Inodes S → Option (Result (Unit {0}) × Inodes S)
  pub vop_truncate : (node len : ℕ) → Inodes S → Option (Result (Unit {0}) × Inodes S)
  pub vop_close : ℕ → Inodes S → Option (Inodes S)
  pub vop_reclaim : ℕ → Inodes S → Option (Inodes S)
  pub vop_fstat : ℕ → Inodes S → Option (Result ℕ)
  pub vop_read : (node offset len : ℕ) → Inodes S → Option (Result (Unit {0}) × ℕ × Inodes S)
  pub vop_write : (node offset len : ℕ) → Inodes S → Option (Result (Unit {0}) × ℕ × Inodes S)
  pub vop_tryseek : (node pos : ℕ) → Inodes S → Option (Result (Unit {0}))
  pub vop_fsync : ℕ → Inodes S → Option (Result (Unit {0}) × Inodes S)

pub inode_ref_inc : {S : Type 0} → ℕ → Inodes S → Inodes S
inode_ref_inc node i = record i { ref_count = update i.ref_count node (i.ref_count node + 1) }

unfoldable pub inode_open_inc : {S : Type 0} → ℕ → Inodes S → Inodes S
inode_open_inc node i = record i { open_count = update i.open_count node (i.open_count node + 1) }

-- `open_flags & O_ACCMODE`
abbrev pub o_accmode : ℕ → ℕ
o_accmode flags = flags % 4

-- `open_flags & O_CREAT`
abbrev pub has_create_flag : ℕ → Bool
has_create_flag flags = (flags / 4) % 2 == 1

-- `open_flags & O_EXCL`
abbrev pub has_excl_flag : ℕ → Bool
has_excl_flag flags = (flags / 8) % 2 == 1

-- `open_flags & O_TRUNC`
abbrev pub has_trunc_flag : ℕ → Bool
has_trunc_flag flags = (flags / 16) % 2 == 1

module _ {S : Type 0} (v : Vops S) where
  -- A failure of vop_reclaim is only printed.
  unfoldable pub inode_ref_dec : ℕ → Inodes S → Option (Inodes S)
  inode_ref_dec node i =
      let left = i.ref_count node - 1 in
      let i' = record i { ref_count = update i.ref_count node left } in
      assert (ltb 0 (i.ref_count node)) >> (if left == 0 then v.vop_reclaim node i' else some i')

  -- A failure of vop_close is only printed.
  unfoldable pub inode_open_dec : ℕ → Inodes S → Option (Inodes S)
  inode_open_dec node i =
      let left = i.open_count node - 1 in
      let i' = record i { open_count = update i.open_count node left } in
      assert (ltb 0 (i.open_count node)) >> (if left == 0 then v.vop_close node i' else some i')

  unfoldable pub vfs_close : ℕ → Inodes S → Option (Inodes S)
  vfs_close node i = inode_open_dec node i >>= λ i1. inode_ref_dec node i1

  -- The inode of a file that is created. The result of vop_create is not looked at.
  pub create_node : (path open_flags : ℕ) → Inodes S → Option (Result ℕ × Inodes S)
  create_node path flags i = v.vfs_lookup_parent path i >>= λ (r, i1). elim r [
    | ok at ↦ v.vop_create at.0 at.1 (has_excl_flag flags) i1 >>= λ (node, i2). some (ok node, i2)
    | err e ↦ some (err e, i1)
  ]

  -- The inode for the path, looked up or created.
  unfoldable pub find_node : (path open_flags : ℕ) → Inodes S → Option (Result ℕ × Inodes S)
  find_node path flags i = v.vfs_lookup path i >>= λ (r, i1). elim r [
    | ok node ↦
        some (if has_excl_flag flags && has_create_flag flags then err e_exists else ok node, i1)
    | err e ↦
        if (e == e_noent) && has_create_flag flags
        then create_node path flags i1
        else some (err e, i1)
  ]

  -- The end of vfs_open: the file is emptied, if that is asked for.
  unfoldable pub truncate_node : (node open_flags : ℕ) → Inodes S → Option (Result ℕ × Inodes S)
  truncate_node node flags i =
      let truncated = v.vop_truncate node 0 i >>= λ (r, i1). elim r [
        | ok u ↦ some (ok node, i1)
        | err e ↦ vfs_close node i1 >>= λ i2. some (err e, i2)
      ] in
      if has_trunc_flag flags || has_create_flag flags then truncated else some (ok node, i)

  -- The part of vfs_open behind the search for the inode.
  unfoldable pub open_inode : (node open_flags : ℕ) → Inodes S → Option (Result ℕ × Inodes S)
  open_inode node flags i =
      assert (not (node == 0))
      >> (v.vop_open node flags i >>= λ (r, i1). elim r [
        | ok u ↦ truncate_node node flags (inode_open_inc node i1)
        | err e ↦ inode_ref_dec node i1 >>= λ i2. some (err e, i2)
      ])

  unfoldable pub vfs_open : (path open_flags : ℕ) → Inodes S → Option (Result ℕ × Inodes S)
  vfs_open path flags i =
      let run = find_node path flags i >>= λ (r, i1). elim r [
        | ok node ↦ open_inode node flags i1
        | err e ↦ some (err e, i1)
      ] in
      if o_accmode flags == 3
      then some (err e_inval, i)
      else if has_trunc_flag flags && (o_accmode flags == 0)
      then some (err e_inval, i)
      else run
