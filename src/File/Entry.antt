-- ===== src/File/Entry.antt =====
-- file_open of kern/fs/file.c behind fd_array_alloc: the entry is opened, or given back.
use li_nos.Base.{
  ℕ, ◌<◌, Bool, true, false, ◌≡◌, ◌≢◌, ◌⊎◌, inl, inr, refl, ap, Option, none, some, Option-cases,
  ◌>>=◌, ==_refl, ==_ne,
}
use li_nos.Vfs.{Result, ok, err, Inodes, Vops, vfs_open, vfs_close}
use li_nos.Vfs.Filled.{vfs_open-filled}
use li_nos.File.{
  fd_none, fd_init, fd_opened, File, Files, nentry, set_file, fd_array_free, fd_array_open,
}
use li_nos.File.Calls.{has_append_flag, open_at, open_node, open_entry}

-- An open file that no call is using.
pub record IsOpen (fd : ℕ) (x : File) : Type 0 where
  pub opened : x.status ≡ fd_opened
  pub count : x.open_count ≡ 1
  pub filled : x.node ≢ 0
  pub own : x.fd ≡ fd

pub record IsUnused (fd : ℕ) (x : File) : Type 0 where
  pub unused : x.status ≡ fd_none
  pub count : x.open_count ≡ 0
  pub own : x.fd ≡ fd

-- A table that no call is using: each entry is open or unused.
abbrev pub IsIdle : {S : Type 0} → Files S → Type 0
IsIdle s = (i : ℕ) → i < nentry → IsOpen i (s.fd_array i) ⊎ IsUnused i (s.fd_array i)

module _ {S : Type 0} where
  -- The entry that is being opened, and the others as they were.
  pub record Opening (fd : ℕ) (s s1 : Files S) : Type 0 where
    pub status : (s1.fd_array fd).status ≡ fd_init
    pub count : (s1.fd_array fd).open_count ≡ 0
    pub own : (s1.fd_array fd).fd ≡ fd
    pub others : (i : ℕ) → i ≢ fd → s1.fd_array i ≡ s.fd_array i

  -- The entry is open, or the call failed and it is unused.
  abbrev pub Settled : (fd : ℕ) (rd wr : Bool) → Files S → Option (Result ℕ × Files S) → Type 0
  Settled fd rd wr s o =
      (r : Result ℕ) × (s' : Files S) × (o ≡ some (r, s'))
      × ((i : ℕ) → i ≢ fd → s'.fd_array i ≡ s.fd_array i)
      × (((r ≡ ok fd)
            × IsOpen fd (s'.fd_array fd)
            × ((s'.fd_array fd).readable ≡ rd)
            × ((s'.fd_array fd).writable ≡ wr))
          ⊎ ((e : ℕ) × (r ≡ err e) × IsUnused fd (s'.fd_array fd)))

  free_runs :
      (v : Vops S) (fd : ℕ) (s : Files S)
      → (s.fd_array fd).status ≡ fd_init
      → (s.fd_array fd).open_count ≡ 0
      → fd_array_free v fd s ≡ some (set_file fd (record (s.fd_array fd) { status = fd_none }) s)
  unfolding fd_array_free
  free_runs v fd s e c = rw (e, c) refl

  pub open_runs :
      (fd : ℕ) (s : Files S)
      → (s.fd_array fd).status ≡ fd_init
      → (s.fd_array fd).node ≢ 0
      → (s.fd_array fd).open_count ≡ 0
      → fd_array_open fd s
        ≡ some (set_file fd (record (s.fd_array fd) { status = fd_opened; open_count = 1 }) s)
  unfolding fd_array_open
  open_runs fd s e n c = rw (e, c) (rw (==_ne (s.fd_array fd).node 0 n) refl)

-- The inode can be asked for its size, and closed, without a panic.
abbrev pub Answers : {S : Type 0} → Vops S → (node : ℕ) → Inodes S → Type 0
Answers v node i = (v.vop_fstat node i ≢ none) × (vfs_close v node i ≢ none)

module _ {S : Type 0} (v : Vops S) (fd : ℕ) (rd wr : Bool) (s : Files S) where
  inodes-Opening :
      (s1 : Files S) (i : Inodes S) → Opening fd s s1 → Opening fd s (record s1 { inodes = i })
  inodes-Opening s1 i o = record {
    status = o.status;
    count = o.count;
    own = o.own;
    others = o.others;
  }

  fails-Settled :
      (s1 : Files S) (e : ℕ)
      → Opening fd s s1
      → Settled fd rd wr s (fd_array_free v fd s1 >>= λ s'. some (err e, s'))
  fails-Settled s1 e o =
      let s' = set_file fd (record (s1.fd_array fd) { status = fd_none }) s1 in
      (
        err e,
        s',
        rw (free_runs v fd s1 o.status o.count) refl,
        (λ i n. rw (==_ne i fd n) (o.others i n)),
        inr (
          e,
          refl,
          record {
            unused = rw (==_refl fd) refl;
            count = rw (==_refl fd) o.count;
            own = rw (==_refl fd) o.own;
          },
        ),
      )

  open_at-Settled :
      (s1 : Files S) (node pos : ℕ)
      → Opening fd s s1
      → node ≢ 0
      → Settled fd rd wr s (open_at v fd node pos rd wr s1)
  unfolding open_at
  open_at-Settled s1 node pos o n =
      let x = record (s1.fd_array fd) { pos = pos; node = node; readable = rd; writable = wr } in
      let s2 = set_file fd x s1 in
      let s' = set_file fd (record (s2.fd_array fd) { status = fd_opened; open_count = 1 }) s2 in
      (
        ok (s'.fd_array fd).fd,
        s',
        rw
            (open_runs fd s2 (rw (==_refl fd) o.status) (rw (==_refl fd) n)
              (rw (==_refl fd) o.count))
            refl,
        (λ i m. rw (==_ne i fd m) (o.others i m)),
        inl (
          rw (==_refl fd) (ap ok o.own),
          rw (==_refl fd) (record { opened = refl; count = refl; filled = n; own = o.own }),
          rw (==_refl fd) refl,
          rw (==_refl fd) refl,
        ),
      )

  open_node-Settled :
      (s1 : Files S) (node : ℕ) (append : Bool)
      → Opening fd s s1
      → node ≢ 0
      → Answers v node s1.inodes
      → Settled fd rd wr s (open_node v fd node append rd wr s1)
  unfolding open_node
  open_node-Settled s1 node false o n a = open_at-Settled s1 node 0 o n
  open_node-Settled s1 node true o n a = elim (Option-cases (v.vop_fstat node s1.inodes)) [
    | inl e ↦ absurd (a.0 e)
    | inr (r, e) ↦ sized r e
  ]
    where
      sized :
          (r : Result ℕ)
          → v.vop_fstat node s1.inodes ≡ some r
          → Settled fd rd wr s (open_node v fd node true rd wr s1)
      sized (ok size) e = rw e (open_at-Settled s1 node size o n)
      sized (err c) e = elim (Option-cases (vfs_close v node s1.inodes)) [
        | inl f ↦ absurd (a.1 f)
        | inr (i, f) ↦
            rw (e, f) (fails-Settled (record s1 { inodes = i }) c (inodes-Opening s1 i o))
      ]

  pub open_entry-Settled :
      (path flags : ℕ) (s1 : Files S) (r : Result ℕ) (i : Inodes S)
      → vfs_open v path flags s1.inodes ≡ some (r, i)
      → ((node : ℕ) → r ≡ ok node → Answers v node i)
      → Opening fd s s1
      → Settled fd rd wr s (open_entry v fd path flags rd wr s1)
  unfolding open_entry
  open_entry-Settled path flags s1 (ok node) i e a o = rw e (
      open_node-Settled (record s1 { inodes = i }) node (has_append_flag flags)
        (inodes-Opening s1 i o) (vfs_open-filled v flags path node s1.inodes i e) (a node refl))
  open_entry-Settled path flags s1 (err c) i e a o =
      rw e (fails-Settled (record s1 { inodes = i }) c (inodes-Opening s1 i o))
