-- ===== src/Host.antt =====
-- What the operations take from outside: the caller's ids (`fuse_get_context`), the clock (`time` at
-- its k-th call within an operation) and whether `calloc` finds room for so many bytes. The other
-- allocations, which the source does not test, succeed.
use fuse_file_system.Prelude.{ℕ, Bool}

pub record Host : Type 0 where
  pub uid : ℕ
  pub gid : ℕ
  pub time : ℕ → ℕ
  pub calloc : ℕ → Bool
