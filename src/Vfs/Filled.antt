-- ===== src/Vfs/Filled.antt =====
-- What vfs_open of kern/fs/vfs/vfsfile.c opens is never a null pointer.
use li_nos.Base.{
  ℕ, not, ◌&&◌, ◌||◌, ◌≡◌, ◌≢◌, inl, inr, arith, Option, some, ◌==◌, Bool-cases, assert-eq-some,
  >>=-eq-some, ◌>>=◌,
}
use li_nos.Vfs.{
  Result, ok, err, Inodes, Vops, has_create_flag, has_trunc_flag, o_accmode, find_node,
  truncate_node, open_inode, inode_open_inc, inode_ref_dec, vfs_close, vfs_open,
}

module _ {S : Type 0} (v : Vops S) (flags : ℕ) where
  truncated_node :
      (node n : ℕ) (i i' : Inodes S) → truncate_node v node flags i ≡ some (ok n, i') → n ≡ node
  unfolding truncate_node
  truncated_node node n i i' e = elim (Bool-cases (has_trunc_flag flags || has_create_flag flags)) [
    | inl h ↦
        let ((r, i1), f, g) = >>=-eq-some (v.vop_truncate node 0 i) _ (rw h at e) in ended r i1 g
    | inr h ↦ let g = rw h at e in cc
  ]
    where
      ended :
          (r : Result (Unit {0})) (i1 : Inodes S)
          → let o : Option (Result ℕ × Inodes S) = elim r [
            | ok u ↦ some (ok node, i1)
            | err c ↦ vfs_close v node i1 >>= λ i2. some (err c, i2)
          ] in
            o ≡ some (ok n, i') → n ≡ node
      ended (ok u) i1 g = cc
      ended (err c) i1 g = let (i2, a, b) = >>=-eq-some (vfs_close v node i1) _ g in cc

  opened_node : (node n : ℕ) (i i' : Inodes S) → open_inode v node flags i ≡ some (ok n, i') → n ≢ 0
  unfolding open_inode
  opened_node node n i i' e =
      let (filled, f) = assert-eq-some (not (node == 0)) _ e in
      let ((r, i1), a, g) = >>=-eq-some (v.vop_open node flags i) _ f in
      let same = ended r i1 g in λ z. ground (arith, same, filled)
    where
      ended :
          (r : Result (Unit {0})) (i1 : Inodes S)
          → (elim r [
            | ok u ↦ truncate_node v node flags (inode_open_inc node i1)
            | err c ↦ inode_ref_dec v node i1 >>= λ i2. some (err c, i2)
          ])
            ≡ some (ok n, i')
          → n ≡ node
      ended (ok u) i1 g = truncated_node node n (inode_open_inc node i1) i' g
      ended (err c) i1 g = let (i2, a, b) = >>=-eq-some (inode_ref_dec v node i1) _ g in cc

  -- An inode that vfs_open returns is not null.
  pub vfs_open-filled :
      (path n : ℕ) (i i' : Inodes S) → vfs_open v path flags i ≡ some (ok n, i') → n ≢ 0
  unfolding vfs_open
  vfs_open-filled path n i i' e = elim (Bool-cases (o_accmode flags == 3)) [
    | inl h ↦ let g = rw h at e in cc
    | inr h ↦ elim (Bool-cases (has_trunc_flag flags && (o_accmode flags == 0))) [
      | inl k ↦ let g = rw (h, k) at e in cc
      | inr k ↦
          let ((r, i1), a, g) = >>=-eq-some (find_node v path flags i) _ (rw (h, k) at e) in
          ended r i1 g
    ]
  ]
    where
      ended :
          (r : Result ℕ) (i1 : Inodes S)
          → (elim r [ ok node ↦ open_inode v node flags i1 | err c ↦ some (err c, i1) ])
            ≡ some (ok n, i')
          → n ≢ 0
      ended (ok node) i1 g = opened_node node n i1 i' g
      ended (err c) i1 g = cc
