-- ===== src/Iobuf/Move.antt =====
-- What the moves of kern/fs/iobuf.c do to the buffer and to the memory.
use li_nos.Base.{
  ℕ, ◌+◌, ◌-◌, ◌≤◌, Bool, true, false, ◌≡◌, ◌∙◌, refl, ap, arith, inl, inr, Option, some,
  if◌then◌else◌, ◌==◌, ltb, leb, Bool-cases,
}
use li_nos.Memory.{Bytes, memmove}
use li_nos.Memory.Copy.{copied, memmove-copied}
use li_nos.Iobuf.{Iobuf, iobuf_skip, amount, iobuf_move}

-- The buffer has moved on by `n`.
abbrev pub advanced : ℕ → Iobuf → Iobuf
advanced n iob = record iob {
  io_base = iob.io_base + n;
  io_offset = iob.io_offset + n;
  io_resid = iob.io_resid - n;
}

-- What a move of `n` bytes leaves, between the buffer of the request and another.
abbrev pub Moved :
    (buf len : ℕ) (m2b : Bool) → Iobuf → Bytes → Option (Bool × ℕ × Iobuf × Bytes) → Type 0
Moved buf len m2b iob t o =
    (n : ℕ) × (iob' : Iobuf) × (u : Bytes) × (o ≡ some (leb len iob.io_resid, n, iob', u))
    × (n ≡ (if leb len iob.io_resid then len else iob.io_resid))
    × (iob'.io_base ≡ iob.io_base + n)
    × (iob'.io_offset ≡ iob.io_offset + n)
    × (iob'.io_len ≡ iob.io_len)
    × (iob'.io_resid + n ≡ iob.io_resid)
    × ((q : ℕ) → u q ≡ (if m2b then copied iob.io_base buf n t q else copied buf iob.io_base n t q))

skip_runs : (n : ℕ) (iob : Iobuf) → n ≤ iob.io_resid → iobuf_skip n iob ≡ some (advanced n iob)
unfolding iobuf_skip
skip_runs n iob l = let e : leb n iob.io_resid ≡ true = ground arith in rw e refl

abbrev after : (buf : ℕ) (m2b : Bool) (n : ℕ) → Iobuf → Bytes → Bytes
after buf m2b n iob t = if m2b then memmove iob.io_base buf n t else memmove buf iob.io_base n t

after-copied :
    (buf : ℕ) (m2b : Bool) (n : ℕ) (iob : Iobuf) (t : Bytes) (q : ℕ)
    → after buf m2b n iob t q
      ≡ (if m2b then copied iob.io_base buf n t q else copied buf iob.io_base n t q)
after-copied buf true n iob t q = memmove-copied iob.io_base buf n t q
after-copied buf false n iob t q = memmove-copied buf iob.io_base n t q

moves :
    (buf len : ℕ) (m2b : Bool) (iob : Iobuf) (t : Bytes)
    → ltb 0 (amount len iob) ≡ true
    → iobuf_skip (amount len iob) iob ≡ some (advanced (amount len iob) iob)
    → iobuf_move buf len m2b iob t
      ≡ some (
        len - amount len iob == 0,
        amount len iob,
        advanced (amount len iob) iob,
        after buf m2b (amount len iob) iob t,
      )
unfolding iobuf_move
moves buf len m2b iob t e r = rw e (rw r refl)

stays :
    (buf len : ℕ) (m2b : Bool) (iob : Iobuf) (t : Bytes)
    → ltb 0 (amount len iob) ≡ false
    → iobuf_move buf len m2b iob t ≡ some (len == 0, amount len iob, iob, t)
unfolding iobuf_move
stays buf len m2b iob t e = rw e refl

none_moved :
    (buf : ℕ) (m2b : Bool) (n : ℕ) (iob : Iobuf) (t : Bytes) (q : ℕ)
    → n ≡ 0
    → t q ≡ (if m2b then copied iob.io_base buf n t q else copied buf iob.io_base n t q)
none_moved buf m2b n iob t q e = ground arith

-- iobuf_move never fails its assertion: it moves as many bytes as were asked for, or as many as the
-- buffer has room for, between the buffer and the other place, as if they were read at once before they
-- are written; the base and the offset move on by as many, the room shrinks by them, and the result
-- is 0 exactly when all were moved.
pub iobuf_move-Moved :
    (buf len : ℕ) (m2b : Bool) (iob : Iobuf) (t : Bytes)
    → Moved buf len m2b iob t (iobuf_move buf len m2b iob t)
iobuf_move-Moved buf len m2b iob t =
    let n = amount len iob in
    elim (Bool-cases (ltb 0 n)) [
      | inl e ↦ (
        n,
        advanced n iob,
        after buf m2b n iob t,
        moves buf len m2b iob t e (skip_runs n iob (ground arith))
            ∙ ap (λ x. some (x, n, advanced n iob, after buf m2b n iob t)) (ground arith),
        ground arith,
        refl,
        refl,
        refl,
        ground arith,
        after-copied buf m2b n iob t,
      )
      | inr e ↦ (
        n,
        iob,
        t,
        stays buf len m2b iob t e ∙ ap (λ x. some (x, n, iob, t)) (ground arith),
        ground arith,
        ground arith,
        ground arith,
        refl,
        ground arith,
        λ q. none_moved buf m2b n iob t q (ground arith),
      )
    ]
