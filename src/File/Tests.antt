-- ===== src/File/Tests.antt =====
-- Runs on a table with descriptor 0 open, over a small file system.
use li_nos.Base.{
  some, none, update, subst, ◌<◌, ℕ, ◌+◌, ◌≡◌, ◌≢◌, inl, inr, refl, arith, true, false,
  if◌then◌else◌, ◌==◌, Bool-cases, ==_iff,
}
use li_nos.Vfs.{
  ok, err, Inodes, Vops, inode_open_inc, inode_open_dec, inode_ref_dec, find_node, truncate_node,
  open_inode, vfs_open, vfs_close,
}
use li_nos.File.{nentry, Files, fd_none, fd_opened}
use li_nos.File.Calls.{file_open}
use li_nos.File.Entry.{IsIdle, Answers}
use li_nos.File.Fork.{dup_files}
use li_nos.File.Dup.{Copies, dup_files-Copies}
use li_nos.File.Open.{Opened, file_open-Opened}

-- Path 9 does not exist, and every other one names the inode 77; files have 100 bytes, and a read moves
-- at most 10.
abbrev counted : Vops ℕ
counted = record {
  vfs_lookup = λ path i.
      if path == 9
      then some (err 16, i)
      else some (ok 77, record i { ref_count = update i.ref_count 77 (i.ref_count 77 + 1) });
  vfs_lookup_parent = λ path i. some (ok (70, 9), i);
  vop_create = λ dir name excl i. some (78, i);
  vop_open = λ node flags i. some (ok tt, i);
  vop_truncate = λ node len i. some (ok tt, i);
  vop_close = λ node i. some i;
  vop_reclaim = λ node i. some i;
  vop_fstat = λ node i. some (ok 100);
  vop_read = λ node offset len i. some (ok tt, 10, i);
  vop_write = λ node offset len i. some (ok tt, len, i);
  vop_tryseek = λ node pos i. some (if pos == 101 then err 3 else ok tt);
  vop_fsync = λ node i. some (ok tt, i);
}

abbrev one_open : Files ℕ
one_open = record {
  filesp = 4096;
  files_count = 1;
  pwd = 70;
  fd_array = λ i. record {
    status = if i == 0 then fd_opened else fd_none;
    readable = true;
    writable = false;
    fd = i;
    pos = 0;
    node = 77;
    open_count = if i == 0 then 1 else 0;
  };
  inodes = record { ref_count = λ q. 1; open_count = λ q. 1; rest = 0 };
}

one_open-IsIdle : IsIdle one_open
one_open-IsIdle i l = elim (Bool-cases (i == 0)) [
  | inl e ↦
      rw ((==_iff i 0).0 e)
        (inl (record { opened = refl; count = refl; filled = λ x. omega arith; own = refl }))
  | inr e ↦ inr (record { unused = rw e refl; count = rw e refl; own = refl })
]

-- The inodes after the file is opened.
abbrev after_open : Inodes ℕ
after_open = record {
  ref_count = update (λ q. 1) 77 2;
  open_count = update (λ q. 1) 77 2;
  rest = 0;
}

opens_node : vfs_open counted 5 2 one_open.inodes ≡ some (ok 77, after_open)
unfolding vfs_open find_node open_inode truncate_node inode_open_inc
opens_node = refl

closes : (node : ℕ) → node ≡ 77 → vfs_close counted node after_open ≢ none
unfolding vfs_close inode_open_dec inode_ref_dec
closes node e f = let g = subst (λ n. vfs_close counted n after_open ≡ none) e f in cc

answers : (node : ℕ) → ok 77 ≡ ok node → Answers counted node after_open
answers node e = ((λ f. cc), closes node (cc))

file_open-Opened_example : Opened 2 one_open (file_open counted 5 2 one_open)
file_open-Opened_example =
    file_open-Opened counted 5 2 one_open (ok 77) after_open refl opens_node answers one_open-IsIdle

abbrev no_files : Files ℕ
no_files = record one_open {
  filesp = 8192;
  files_count = 0;
  pwd = 0;
  fd_array = λ i. record (one_open.fd_array i) { status = fd_none; open_count = 0 };
}

dup_files-Copies_example :
    (s' : Files ℕ) × (dup_files counted no_files one_open ≡ some s')
    × ((i : ℕ) → i < nentry → Copies i (one_open.fd_array i) (s'.fd_array i))
    × IsIdle s'
    × (s'.pwd ≡ 70)
dup_files-Copies_example =
    dup_files-Copies counted no_files one_open
      ((λ e. omega arith), (λ e. omega arith), refl, omega arith) one_open-IsIdle
      (λ i l. record { unused = refl; count = refl; own = refl })
