-- ===== src/Prelude/Table.antt =====
-- Facts about the bytes and the bits of a byte, by trying each value.
use Prim.Native.Nat.{ℕ, zero, suc, ◌<◌}
use mathlib.Core.Path.{◌≡◌}
use mathlib.Core.Bool.{Bool, true, false}
use fuse_file_system.Prelude.Tests.{if◌then◌else◌}
use native.Mathlib.Omega.{arith}

-- A table of `rows` answers: are they all `true`?
unfoldable pub holds : (row : ℕ → Bool) (rows : ℕ) → Bool
holds row zero = true
holds row (suc last) = if row last then holds row last else false

pub entry_holds : (row : ℕ → Bool) (rows i : ℕ) → i < rows → holds row rows ≡ true → row i ≡ true
unfolding holds
entry_holds row zero i below table = absurd (omega arith)
entry_holds row (suc last) i below table = ground (arith, entry_holds row last i)
