-- ===== src/File/Open.antt =====
-- file_open of kern/fs/file.c, from a table that no call is using.
use li_nos.Base.{
  ℕ, ◌<◌, Bool, true, false, ◌≡◌, ◌≢◌, ◌∙◌, ◌⊎◌, inl, inr, refl, sym, ap, subst, arith, Option,
  none, some, ◌==◌, ==_refl, ==_ne, ==_iff, Bool-cases,
}
use li_nos.Vfs.{Result, ok, err, e_inval, Inodes, Vops, vfs_open}
use li_nos.File.{
  fd_init, Files, is_live, is_none, nentry, no_fd, e_max_open, set_file, found_fd, fd_array_alloc,
  first_free,
}
use li_nos.File.Calls.{access_mode, open_entry, file_open}
use li_nos.File.Free.{FirstFree-cases}
use li_nos.File.Entry.{IsOpen, IsUnused, IsIdle, Opening, Answers, Settled, open_entry-Settled}

-- What file_open does: the least free descriptor is open with the modes that the flags ask for and the
-- others are as before, or nothing is opened and the same descriptors are free as before.
abbrev pub Opened : {S : Type 0} → (flags : ℕ) → Files S → Option (Result ℕ × Files S) → Type 0
Opened flags s o =
    (r : Result ℕ) × (s' : _) × (o ≡ some (r, s'))
    × IsIdle s'
    × (((fd : ℕ) × (rd : Bool) × (wr : Bool) × (access_mode flags ≡ some (rd, wr))
          × (r ≡ ok fd)
          × (fd < nentry)
          × (is_none (s.fd_array fd).status ≡ true)
          × ((j : ℕ) → j < fd → is_none (s.fd_array j).status ≡ false)
          × IsOpen fd (s'.fd_array fd)
          × ((s'.fd_array fd).readable ≡ rd)
          × ((s'.fd_array fd).writable ≡ wr)
          × ((i : ℕ) → i ≢ fd → s'.fd_array i ≡ s.fd_array i))
        ⊎ ((e : ℕ) × (r ≡ err e)
            × ((i : ℕ)
                → i < nentry
                → is_none (s'.fd_array i).status ≡ is_none (s.fd_array i).status)))

module _ {S : Type 0} (v : Vops S) (path flags : ℕ) (s : Files S) where
  abbrev started : ℕ → Files S
  started fd = set_file fd (record (s.fd_array fd) { status = fd_init; node = 0 }) s

  alloc_runs :
      (fd : ℕ)
      → first_free nentry s.fd_array 0 ≡ some fd
      → (s.fd_array fd).open_count ≡ 0
      → is_live s ≡ true
      → fd_array_alloc no_fd s ≡ some (ok fd, started fd)
  unfolding fd_array_alloc found_fd
  alloc_runs fd e c l = rw l (rw (e, fd_array_alloc) (rw c refl))

  full_runs :
      first_free nentry s.fd_array 0 ≡ none
      → is_live s ≡ true
      → fd_array_alloc no_fd s ≡ some (err e_max_open, s)
  unfolding fd_array_alloc
  full_runs e l = rw l (rw (e, fd_array_alloc) refl)

  bad_mode : access_mode flags ≡ none → file_open v path flags s ≡ some (err e_inval, s)
  unfolding file_open
  bad_mode e = rw (e, file_open) refl

  full_table :
      (rd wr : Bool)
      → access_mode flags ≡ some (rd, wr)
      → first_free nentry s.fd_array 0 ≡ none
      → is_live s ≡ true
      → file_open v path flags s ≡ some (err e_max_open, s)
  unfolding file_open
  full_table rd wr e f l = rw (e, file_open) (rw (full_runs f l) refl)

  opens_entry :
      (fd : ℕ) (rd wr : Bool)
      → access_mode flags ≡ some (rd, wr)
      → first_free nentry s.fd_array 0 ≡ some fd
      → (s.fd_array fd).open_count ≡ 0
      → is_live s ≡ true
      → file_open v path flags s ≡ open_entry v fd path flags rd wr (started fd)
  unfolding file_open
  opens_entry fd rd wr e f c l = rw (e, file_open) (rw (alloc_runs fd f c l) refl)

  started-Opening :
      (fd : ℕ)
      → (s.fd_array fd).open_count ≡ 0
      → (s.fd_array fd).fd ≡ fd
      → Opening fd s (started fd)
  started-Opening fd c o = record {
    status = rw (==_refl fd) refl;
    count = rw (==_refl fd) c;
    own = rw (==_refl fd) o;
    others = λ i n. rw (==_ne i fd n) refl;
  }

  free_entry :
      (fd : ℕ)
      → IsIdle s
      → fd < nentry
      → is_none (s.fd_array fd).status ≡ true
      → IsUnused fd (s.fd_array fd)
  free_entry fd idle l t = elim (idle fd l) [
    | inl o ↦ absurd (wrong (sym (ap is_none o.opened) ∙ t))
    | inr u ↦ u
  ]
    where
      wrong : false ≢ true
      wrong e = cc

  -- One entry has been settled, and the others are as they were.
  settled-IsIdle :
      (fd : ℕ) (s' : Files S)
      → IsIdle s
      → ((i : ℕ) → i ≢ fd → s'.fd_array i ≡ s.fd_array i)
      → IsOpen fd (s'.fd_array fd) ⊎ IsUnused fd (s'.fd_array fd)
      → IsIdle s'
  settled-IsIdle fd s' idle f x i l = elim (Bool-cases (i == fd)) [
    | inl e ↦
        subst (λ y. IsOpen y (s'.fd_array y) ⊎ IsUnused y (s'.fd_array y)) (sym ((==_iff i fd).0 e))
          x
    | inr e ↦
        subst (λ y. IsOpen i y ⊎ IsUnused i y) (sym (f i (λ h. ground (arith, ==_refl fd))))
          (idle i l)
  ]

  refused :
      (e : ℕ)
      → IsIdle s
      → file_open v path flags s ≡ some (err e, s)
      → Opened flags s (file_open v path flags s)
  refused e idle r = (err e, s, r, idle, inr (e, refl, λ i l. refl))

  Settled-Opened :
      (fd : ℕ) (rd wr : Bool)
      → IsIdle s
      → access_mode flags ≡ some (rd, wr)
      → fd < nentry
      → is_none (s.fd_array fd).status ≡ true
      → ((j : ℕ) → j < fd → is_none (s.fd_array j).status ≡ false)
      → Settled fd rd wr s (file_open v path flags s)
      → Opened flags s (file_open v path flags s)
  Settled-Opened fd rd wr idle m l t f (r, s', e, g, inl (a, o, x, y)) =
      (r, s', e, settled-IsIdle fd s' idle g (inl o), inl (fd, rd, wr, m, a, l, t, f, o, x, y, g))
  Settled-Opened fd rd wr idle m l t f (r, s', e, g, inr (c, a, u)) = (
    r,
    s',
    e,
    settled-IsIdle fd s' idle g (inr u),
    inr (
      c,
      a,
      λ i k. elim (Bool-cases (i == fd)) [
        | inl h ↦
            subst (λ y. is_none (s'.fd_array y).status ≡ is_none (s.fd_array y).status)
              (sym ((==_iff i fd).0 h)) (ap is_none u.unused ∙ sym t)
        | inr h ↦ ap (λ y. is_none y.status) (g i (λ x. ground (arith, ==_refl fd)))
      ],
    ),
  )

  open_mode :
      (r : Result ℕ) (i : Inodes S)
      → is_live s ≡ true
      → vfs_open v path flags s.inodes ≡ some (r, i)
      → ((node : ℕ) → r ≡ ok node → Answers v node i)
      → IsIdle s
      → (m : Option (Bool × Bool)) → access_mode flags ≡ m
      → Opened flags s (file_open v path flags s)
  open_mode r i live o a idle none e = refused e_inval idle (bad_mode e)
  open_mode r i live o a idle (some (rd, wr)) e = elim (FirstFree-cases nentry s.fd_array 0) [
    | inl (fd, (g, x, l, t, f)) ↦
        let u = free_entry fd idle (omega arith) t in
        Settled-Opened fd rd wr idle e (omega arith) t (λ j k. f j (omega arith) k)
          (subst (Settled fd rd wr s) (sym (opens_entry fd rd wr e g u.count live)) (
            open_entry-Settled v fd rd wr s path flags (started fd) r i o a
              (started-Opening fd u.count u.own)))
    | inr (g, f) ↦ refused e_max_open idle (full_table rd wr e g live)
  ]

-- From a table that no call is using, of a process that has one, and with a vfs_open that returns, and
-- leaves an inode that vop_fstat and vfs_close take without a panic, if it succeeds: file_open fails no
-- assertion, and leaves the table so that no call is using it. On success the least free descriptor is
-- returned, open with a count of one and with the modes that the flags ask for, and no other entry
-- changes; on an error, the same descriptors are free as before.
pub file_open-Opened :
    {S : Type 0} (v : Vops S) (path flags : ℕ) (s : Files S) (r : Result ℕ) (i : Inodes S)
    → is_live s ≡ true
    → vfs_open v path flags s.inodes ≡ some (r, i)
    → ((node : ℕ) → r ≡ ok node → Answers v node i)
    → IsIdle s
    → Opened flags s (file_open v path flags s)
file_open-Opened v path flags s r i live o a idle =
    open_mode v path flags s r i live o a idle (access_mode flags) refl
