-- ===== src/Requests.antt =====
-- The operations vector `fs_ops` of homework.c: the requests that the kernel makes of the file
-- system, and how each is carried out. What a request returns beside its status is dropped.
use fuse_file_system.Prelude.{ℕ}
use fuse_file_system.Layout.{Block}
use fuse_file_system.State.{Action, ◌>>=◌, pure}
use fuse_file_system.Host.{Host}
use fuse_file_system.Paths.{CString}
use fuse_file_system.Mount.{fs_statfs}
use fuse_file_system.Attributes.{fs_getattr, fs_chmod, fs_utime}
use fuse_file_system.Listing.{fs_readdir}
use fuse_file_system.Rename.{fs_rename}
use fuse_file_system.Read.{fs_read}
use fuse_file_system.Create.{fs_create, fs_mkdir}
use fuse_file_system.Remove.{fs_unlink, fs_rmdir}
use fuse_file_system.Truncate.{fs_truncate}
use fuse_file_system.Write.{fs_write}

pub data Request : Type 0 where
  getattr : CString → Request
  readdir : CString → (offset : ℕ) → Request
  rename : (src dst : CString) → Request
  chmod : CString → (mode : ℕ) → Request
  read : CString → (len offset : ℕ) → Request
  statfs : CString → Request
  create : CString → (mode : ℕ) → Request
  mkdir : CString → (mode : ℕ) → Request
  unlink : CString → Request
  rmdir : CString → Request
  utime : CString → (modtime : ℕ) → Request
  truncate : CString → (len : ℕ) → Request
  write : CString → Block → (len offset : ℕ) → Request

unfoldable pub run : Host → Request → Action (Unit {0})
run host (getattr path) = do _ ← fs_getattr path; pure tt
run host (readdir path offset) = do _ ← fs_readdir path offset; pure tt
run host (rename src dst) = fs_rename src dst
run host (chmod path mode) = fs_chmod path mode
run host (read path len offset) = do _ ← fs_read host path len offset; pure tt
run host (statfs path) = do _ ← fs_statfs path; pure tt
run host (create path mode) = fs_create host path mode
run host (mkdir path mode) = fs_mkdir host path mode
run host (unlink path) = fs_unlink path
run host (rmdir path) = fs_rmdir path
run host (utime path modtime) = fs_utime path modtime
run host (truncate path len) = fs_truncate path len
run host (write path src len offset) = do _ ← fs_write host path src len offset; pure tt
