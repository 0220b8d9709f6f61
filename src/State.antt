-- ===== src/State.antt =====
-- The globals of homework.c, the disk image behind them, and a call's outcome: a value, a negative
-- `errno`, or undefined behaviour. What was written before an error stays written.
use fuse_file_system.Prelude.{ℕ, Bool, if◌then◌else◌}
use fuse_file_system.Layout.{Block, Inode, Super}

-- The image file as blocks, by number. The file has `blocks` whole blocks. `broken n` says that the
-- kernel answers a transfer of block `n` with an error.
pub record Image : Type 0 where
  pub block : ℕ → Block
  pub blocks : ℕ
  pub broken : ℕ → Bool

-- The fields of `struct statvfs` that are set.
pub record Statvfs : Type 0 where
  pub bsize : ℕ
  pub blocks : ℕ
  pub bfree : ℕ
  pub bavail : ℕ
  pub namemax : ℕ

pub record FsState : Type 0 where
  pub image : Image
  pub superblock : Super
  pub root_inode : Inode
  pub bitmap : Block
  pub stat_vfs : Statvfs

pub data Errno : Type 0 where
  enoent eio eexist enotdir eisdir einval enospc enotempty enomem : Errno
  other : (status : ℕ) → Errno

-- `err e` is the returned `-e`, `err (other status)` a negative `int` that is no error number. `fault` is undefined behaviour or an abort: a failed `assert`, an
-- index outside its array, a `free` of what `malloc` did not return.
pub data Result {ℓ} (A : Type ℓ) : Type ℓ where
  ok : A → Result A
  err : Errno → Result A
  fault : Result A

abbrev pub Action : Type 0 → Type 0
Action A = FsState → Result A × FsState

module _ {A : Type 0} where
  abbrev pub pure : A → Action A
  pure a s = (ok a, s)

  abbrev pub fail : Errno → Action A
  fail e s = (err e, s)

  abbrev pub crash : Action A
  crash s = (fault, s)

  abbrev pub gets : (FsState → A) → Action A
  gets f s = (ok (f s), s)

module _ {A B : Type 0} where
  abbrev pub and_then : Result A × FsState → (A → Action B) → Result B × FsState
  and_then (ok a, s) k = k a s
  and_then (err e, s) k = (err e, s)
  and_then (fault, s) k = (fault, s)

  infixl 5 ◌>>=◌ ◌>>◌
  abbrev pub ◌>>=◌ : Action A → (A → Action B) → Action B
  ◌>>=◌ m k s = and_then (m s) k

  abbrev pub ◌>>◌ : Action A → Action B → Action B
  m >> k = m >>= λ _. k

abbrev pub modify : (FsState → FsState) → Action (Unit {0})
modify f s = (ok tt, f s)

abbrev pub fail_if : Bool → Errno → Action (Unit {0})
fail_if b e = if b then fail e else pure tt

abbrev pub crash_if : Bool → Action (Unit {0})
crash_if b = if b then crash else pure tt
