-- ===== src/File/Dup.antt =====
-- dup_files of kern/fs/fs.c: the table of a forked process.
use li_nos.Base.{
  ℕ, zero, suc, ltb, true, ◌+◌, ◌≤◌, ◌<◌, false, ◌≡◌, ◌≢◌, ◌∙◌, ◌⊎◌, inl, inr, refl, sym, ap, subst,
  arith, some, ◌==◌, update, ==_refl, ==_ne, ==_iff, Bool-cases,
}
use li_nos.Vfs.{Vops, inode_ref_inc, inode_open_inc}
use li_nos.File.{fd_init, fd_opened, File, Files, is_opened, nentry, set_file}
use li_nos.File.Entry.{IsOpen, IsUnused, IsIdle, open_runs}
use li_nos.File.Fork.{dup_entry, dup_from, dup_pwd, dup_files}

-- The entry of the new process: open like the old one, or both are unused.
abbrev pub Copies : (fd : ℕ) (x y : File) → Type 0
Copies fd x y =
    (IsOpen fd x
      × IsOpen fd y
      × (y.node ≡ x.node)
      × (y.pos ≡ x.pos)
      × (y.readable ≡ x.readable)
      × (y.writable ≡ x.writable))
    ⊎ (IsUnused fd x × IsUnused fd y)

module _ {S : Type 0} (v : Vops S) (from : ℕ → File) where
  abbrev begun : ℕ → Files S → Files S
  begun fd s =
      let x = from fd in
      record s {
        fd_array = update s.fd_array fd (record (s.fd_array fd) {
          status = fd_init;
          pos = x.pos;
          readable = x.readable;
          writable = x.writable;
          node = x.node;
        });
        inodes = inode_open_inc x.node (inode_ref_inc x.node s.inodes);
      }

  abbrev opened : ℕ → Files S → Files S
  opened fd s =
      set_file fd (record ((begun fd s).fd_array fd) { status = fd_opened; open_count = 1 })
        (begun fd s)

  entry_runs :
      (fd : ℕ) (s : Files S)
      → (from fd).status ≡ fd_opened
      → (from fd).node ≢ 0
      → (s.fd_array fd).open_count ≡ 0
      → dup_entry v fd from s ≡ some (opened fd s)
  unfolding dup_entry
  entry_runs fd s e n c =
      rw e
        (open_runs fd (begun fd s) (rw (==_refl fd) refl) (rw (==_refl fd) n) (rw (==_refl fd) c))

  entry_skips :
      (fd : ℕ) (s : Files S) → is_opened (from fd).status ≡ false → dup_entry v fd from s ≡ some s
  unfolding dup_entry
  entry_skips fd s e = rw e refl

  entry-Copies :
      (fd : ℕ) (s : Files S)
      → IsOpen fd (from fd) ⊎ IsUnused fd (from fd)
      → IsUnused fd (s.fd_array fd)
      → (s' : Files S) × (dup_entry v fd from s ≡ some s')
        × Copies fd (from fd) (s'.fd_array fd)
        × ((i : ℕ) → i ≢ fd → s'.fd_array i ≡ s.fd_array i)
        × (s'.pwd ≡ s.pwd)
  entry-Copies fd s (inl o) u = (
    opened fd s,
    entry_runs fd s o.opened o.filled u.count,
    inl (
      o,
      rw (==_refl fd) (record { opened = refl; count = refl; filled = o.filled; own = u.own }),
      rw (==_refl fd) refl,
      rw (==_refl fd) refl,
      rw (==_refl fd) refl,
      rw (==_refl fd) refl,
    ),
    (λ i n. rw (==_ne i fd n) refl),
    refl,
  )
  entry-Copies fd s (inr w) u =
      (s, entry_skips fd s (ap is_opened w.unused), inr (w, u), (λ i n. refl), refl)

  step_runs :
      (n fd : ℕ) (s s1 : Files S)
      → dup_entry v fd from s ≡ some s1
      → dup_from v (suc n) fd from s ≡ dup_from v n (fd + 1) from s1
  unfolding dup_from
  step_runs n fd s s1 e = rw e refl

  from-Copies :
      (n fd : ℕ) (s : Files S)
      → ((i : ℕ) → fd ≤ i → i < fd + n → IsOpen i (from i) ⊎ IsUnused i (from i))
      → ((i : ℕ) → fd ≤ i → i < fd + n → IsUnused i (s.fd_array i))
      → (s' : Files S) × (dup_from v n fd from s ≡ some s')
        × ((i : ℕ) → fd ≤ i → i < fd + n → Copies i (from i) (s'.fd_array i))
        × ((i : ℕ) → i < fd → s'.fd_array i ≡ s.fd_array i)
        × (s'.pwd ≡ s.pwd)
  unfolding dup_from
  from-Copies zero fd s f u = (s, refl, (λ i a b. absurd (omega arith)), (λ i l. refl), refl)
  from-Copies (suc n) fd s f u =
      let (s1, e, c, g, pwd1) =
        entry-Copies fd s (f fd (omega arith) (omega arith)) (u fd (omega arith) (omega arith)) in
      let (s', r, h, k, pwd2) =
        from-Copies n (fd + 1) s1 (λ i a b. f i (omega arith) (omega arith))
          (λ i a b.
            subst (IsUnused i) (sym (g i (λ x. omega arith))) (u i (omega arith) (omega arith))) in
      (
        s',
        step_runs n fd s s1 e ∙ r,
        (λ i a b. elim (Bool-cases (i == fd)) [
          | inl x ↦
              let y = (==_iff i fd).0 x in
              rw y (subst (Copies fd (from fd)) (sym (k fd (omega arith))) c)
          | inr x ↦ h i (ground arith) (omega arith)
        ]),
        (λ i l. k i (omega arith) ∙ g i (λ x. omega arith)),
        pwd2 ∙ pwd1,
      )

-- The new table of a process, not counted yet, and the old one.
abbrev pub Forked : {S : Type 0} → (to from : Files S) → Type 0
Forked to from = (to.filesp ≢ 0) × (from.filesp ≢ 0) × (to.files_count ≡ 0) × (0 < from.files_count)

dup_runs :
    {S : Type 0} (v : Vops S) (to from : Files S)
    → Forked to from
    → dup_files v to from ≡ dup_from v nentry 0 from.fd_array (dup_pwd v from.pwd to)
unfolding dup_files
dup_runs v to from (a, b, c, d) =
    rw (==_ne to.filesp 0 a) (rw (==_ne from.filesp 0 b) (rw c (rw (positive d) refl)))
  where
    positive : 0 < from.files_count → ltb 0 from.files_count ≡ true
    positive h = ground arith

pwd-same :
    {S : Type 0} (v : Vops S) (pwd : ℕ) (s : Files S)
    → ((dup_pwd v pwd s).fd_array ≡ s.fd_array) × ((dup_pwd v pwd s).pwd ≡ pwd)
unfolding dup_pwd
pwd-same v pwd s = (refl, refl)

-- From an old table that no call is using, with a count above zero, to a new one whose entries are unused,
-- with a count of zero, neither of them a null pointer, dup_files fails no assertion: in the new
-- table exactly the descriptors are open that are open in the old one, each with the inode, position
-- and modes of the old one and a count of one, no call is using it, and the working directory is that
-- of the old one.
pub dup_files-Copies :
    {S : Type 0} (v : Vops S) (to from : Files S)
    → Forked to from
    → IsIdle from
    → ((i : ℕ) → i < nentry → IsUnused i (to.fd_array i))
    → (s' : Files S) × (dup_files v to from ≡ some s')
      × ((i : ℕ) → i < nentry → Copies i (from.fd_array i) (s'.fd_array i))
      × IsIdle s'
      × (s'.pwd ≡ from.pwd)
dup_files-Copies v to from forked idle u =
    let s = dup_pwd v from.pwd to in
    let (same, at) = pwd-same v from.pwd to in
    let (s', r, h, k, p) =
      from-Copies v from.fd_array nentry 0 s (λ i a b. idle i (omega arith))
        (λ i a b. rw same (u i (omega arith))) in
    (
      s',
      dup_runs v to from forked ∙ r,
      (λ i l. h i (omega arith) (omega arith)),
      (λ i l. new_entry i (s'.fd_array i) (h i (omega arith) (omega arith))),
      p ∙ at,
    )
  where
    new_entry : (i : ℕ) (y : File) → Copies i (from.fd_array i) y → IsOpen i y ⊎ IsUnused i y
    new_entry i y (inl c) = inl c.1
    new_entry i y (inr c) = inr c.1
