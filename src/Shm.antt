-- ===== src/Shm.antt =====
-- `posix_shm` of src/shm.hpp: a mapped POSIX shared memory with a cursor. The bytes of the mapping
-- are the cells of an array; `off_t` and `uint64_t` values are their 64-bit patterns.
pub mod Cursor
pub mod Access
pub mod RoundTrip
pub mod Verdict
pub mod Segment
mod Tests
use rfdts.Base.{
  ℕ, ◌+◌, ◌-◌, ◌^◌, Bool, true, false, ◌&&◌, ◌||◌, not, List, Outcome, ok, exited, errno, einval,
  eperm, ◌>>=◌, ltb, leb, ◌==◌, if◌then◌else◌, Array, null, put_cells, memcpy, memset, Option, none,
  some,
}
use rfdts.Base.Words.{u64}

-- PROT_READ and PROT_WRITE in the protection given to `mmap`.
pub record Protection : Type 0 where
  pub prot_read : Bool
  pub prot_write : Bool

-- `__name` and `__fd`, which constructors and destructor alone use, are those of Segment.
pub record PosixShm : Type 0 where
  pub addr : Array ℕ
  pub length : ℕ
  pub cur : ℕ
  pub protect : Protection

pub data Whence : Type 0 where
  seek_set seek_cur seek_end other_whence : Whence

-- `a < b` and `a <= b` of two off_t.
abbrev pub signed_ltb : ℕ → ℕ → Bool
signed_ltb a b = ltb (u64 (a + 2 ^ 63)) (u64 (b + 2 ^ 63))

abbrev pub signed_leb : ℕ → ℕ → Bool
signed_leb a b = leb (u64 (a + 2 ^ 63)) (u64 (b + 2 ^ 63))

unfoldable pub getaddr : PosixShm → ℕ
getaddr p = p.addr.base

unfoldable pub getlength : PosixShm → ℕ
getlength p = p.length

unfoldable pub tell : PosixShm → ℕ
tell p = p.cur

unfoldable pub clear : PosixShm → Outcome PosixShm
clear p = do
  cells ← memset p.length p.addr.cells 0 0
  ok (record p { addr = put_cells p.addr cells; cur = 0 })

-- The cursor is set, and its value returned.
abbrev pub set_cur : PosixShm → ℕ → Outcome (ℕ × PosixShm)
set_cur p cur = ok (cur, record p { cur = cur })

-- `__length - 1 + offset` as an uint64_t.
abbrev pub from_end : PosixShm → ℕ → ℕ
from_end p offset = u64 (p.length + (2 ^ 64 - 1) + offset)

-- With no other thread at work the exchange of the cursor succeeds at once. Its `temp + offset` is
-- overwritten by the store that follows; the test `(temp + offset) < 0` is one of an uint64_t.
unfoldable pub seek : PosixShm → ℕ → Whence → Outcome (ℕ × PosixShm)
seek p offset seek_set =
    if signed_ltb offset 0 || signed_leb p.length offset
    then exited (errno einval)
    else set_cur p offset
seek p offset seek_cur =
    if signed_leb p.length (u64 (p.cur + offset)) || ltb (u64 (p.cur + offset)) 0
    then exited (errno einval)
    else set_cur p (from_end p offset)
seek p offset seek_end =
    if signed_ltb 0 offset || signed_leb offset (u64 (2 ^ 64 - p.length))
    then exited (errno einval)
    else set_cur p (from_end p offset)
seek p offset other_whence = exited (errno einval)

-- The state of `__access`: the caller's buffer and the shared memory.
abbrev pub Accessed : Type 0
Accessed = Outcome (Array ℕ × PosixShm)

-- The loop of `__access`, which other threads alone can make run again.
unfoldable pub transfer : Array ℕ → ℕ → Bool → PosixShm → Accessed
transfer buf nbytes is_read p =
    if ltb p.length (u64 (p.cur + nbytes)) then exited (errno einval) else elim is_read [
      | true ↦ do
        cells ← memcpy nbytes buf.cells 0 p.addr.cells p.cur
        ok (put_cells buf cells, record p { cur = u64 (p.cur + nbytes) })
      | false ↦ do
        cells ← memcpy nbytes p.addr.cells p.cur buf.cells 0
        ok (buf, record p { addr = put_cells p.addr cells; cur = u64 (p.cur + nbytes) })
    ]

-- `if (reset) seek(0, SEEK_SET);`
unfoldable pub rewind : Bool → PosixShm → Outcome PosixShm
rewind reset p = if reset then (seek p 0 seek_set >>= λ r. ok r.1) else ok p

-- `if (is_read) memset(buf, 0, buf_len);`
unfoldable pub wipe : Array ℕ → ℕ → Bool → Outcome (Array ℕ)
wipe buf buf_len is_read =
    if is_read then (memset buf_len buf.cells 0 0 >>= λ cells. ok (put_cells buf cells)) else ok buf

unfoldable pub access : PosixShm → Array ℕ → ℕ → ℕ → Bool → Bool → Accessed
access p buf buf_len nbytes reset is_read =
    if (is_read && not p.protect.prot_read) || (not is_read && not p.protect.prot_write)
    then exited (errno eperm)
    else if buf.base == 0 || ltb buf_len nbytes
    then exited (errno einval)
    else if nbytes == 0
    then ok (buf, p)
    else do buf ← wipe buf buf_len is_read; p ← rewind reset p; transfer buf nbytes is_read p

unfoldable pub read : PosixShm → Array ℕ → ℕ → ℕ → Bool → Accessed
unfolding access
read p buf buf_len nbytes reset = access p buf buf_len nbytes reset true

unfoldable pub write : PosixShm → Array ℕ → ℕ → ℕ → Bool → Accessed
unfolding access
write p buf buf_len nbytes reset = access p buf buf_len nbytes reset false

-- The move constructor: the old object keeps its cursor and length, and no mapping.
unfoldable pub move : PosixShm → PosixShm × PosixShm
move ref = (ref, record ref { addr = null })
