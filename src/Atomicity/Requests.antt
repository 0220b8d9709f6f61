-- ===== src/Atomicity/Requests.antt =====
-- The requests of homework.c's `fs_ops`: what they leave behind when they fail.
use fuse_file_system.Prelude.{◌≡◌, ◌⊎◌, subst}
use fuse_file_system.State.{FsState, Errno, err, Action, ◌>>=◌, pure}
use fuse_file_system.Host.{Host}
use fuse_file_system.Write.{fs_write}
use fuse_file_system.Requests.{
  Request, getattr, readdir, rename, chmod, read, statfs, create, mkdir, unlink, rmdir, utime,
  truncate, write, run,
}
use fuse_file_system.Atomicity.{
  ReadOnly, Atomic, Clean, Atomic-bind_late, ReadOnly-Atomic, ReadOnly-bind, ReadOnly-pure,
}
use fuse_file_system.Atomicity.Reads.{
  fs_getattr-ReadOnly, fs_readdir-ReadOnly, fs_read-ReadOnly, fs_statfs-ReadOnly,
}
use fuse_file_system.Atomicity.Operations.{
  IsEio, fs_rename-Atomic, fs_chmod-Atomic, fs_create-Atomic, fs_mkdir-Atomic, fs_unlink-Atomic,
  fs_rmdir-Atomic, fs_utime-Atomic, fs_truncate-Atomic,
}
use fuse_file_system.Atomicity.Writing.{IsLate, fs_write-Atomic}

-- The errors that a request may return after it has changed the image: none of a query.
abbrev pub MayReturnLate : Request → Errno → Type 0
MayReturnLate (getattr path) e = ⊥
MayReturnLate (readdir path offset) e = ⊥
MayReturnLate (read path len offset) e = ⊥
MayReturnLate (statfs path) e = ⊥
MayReturnLate (write path src len offset) e = IsLate e
MayReturnLate request e = IsEio e

-- The requests that only look.
abbrev pub IsQuery : Request → Type 0
IsQuery (getattr path) = Unit {0}
IsQuery (readdir path offset) = Unit {0}
IsQuery (read path len offset) = Unit {0}
IsQuery (statfs path) = Unit {0}
IsQuery request = ⊥

query : {A : Type 0} (m : Action A) → ReadOnly m → ReadOnly (do _ ← m; pure tt)
query m h = ReadOnly-bind m (λ _. pure tt) h λ _. ReadOnly-pure tt

run-ReadOnly : (host : Host) (r : Request) → IsQuery r → ReadOnly (run host r)
unfolding run
run-ReadOnly host (getattr path) q = query _ (fs_getattr-ReadOnly path)
run-ReadOnly host (readdir path offset) q = query _ (fs_readdir-ReadOnly path offset)
run-ReadOnly host (read path len offset) q = query _ (fs_read-ReadOnly host path len offset)
run-ReadOnly host (statfs path) q = query _ (fs_statfs-ReadOnly path)
run-ReadOnly host (rename src dst) q = elim q [ ]
run-ReadOnly host (chmod path mode) q = elim q [ ]
run-ReadOnly host (create path mode) q = elim q [ ]
run-ReadOnly host (mkdir path mode) q = elim q [ ]
run-ReadOnly host (unlink path) q = elim q [ ]
run-ReadOnly host (rmdir path) q = elim q [ ]
run-ReadOnly host (utime path modtime) q = elim q [ ]
run-ReadOnly host (truncate path len) q = elim q [ ]
run-ReadOnly host (write path src len offset) q = elim q [ ]

-- A request for attributes, a listing, the bytes of a file or the statistics leaves the state as
-- it was, whether it succeeds, fails or aborts.
pub query_keeps_state : (host : Host) (r : Request) (s : FsState) → IsQuery r → (run host r s).1 ≡ s
query_keeps_state host r s q = (run-ReadOnly host r q).same s

run-Atomic : (host : Host) (r : Request) → Atomic (MayReturnLate r) (run host r)
unfolding run
run-Atomic host (getattr path) = ReadOnly-Atomic _ _ (query _ (fs_getattr-ReadOnly path))
run-Atomic host (readdir path offset) =
    ReadOnly-Atomic _ _ (query _ (fs_readdir-ReadOnly path offset))
run-Atomic host (rename src dst) = fs_rename-Atomic src dst
run-Atomic host (chmod path mode) = fs_chmod-Atomic path mode
run-Atomic host (read path len offset) =
    ReadOnly-Atomic _ _ (query _ (fs_read-ReadOnly host path len offset))
run-Atomic host (statfs path) = ReadOnly-Atomic _ _ (query _ (fs_statfs-ReadOnly path))
run-Atomic host (create path mode) = fs_create-Atomic host path mode
run-Atomic host (mkdir path mode) = fs_mkdir-Atomic host path mode
run-Atomic host (unlink path) = fs_unlink-Atomic path
run-Atomic host (rmdir path) = fs_rmdir-Atomic path
run-Atomic host (utime path modtime) = fs_utime-Atomic path modtime
run-Atomic host (truncate path len) = fs_truncate-Atomic path len
run-Atomic host (write path src len offset) =
    Atomic-bind_late IsLate (fs_write host path src len offset) (λ _. pure tt)
      (fs_write-Atomic host path src len offset) λ _. record { late = λ s. tt }

-- A request of the operations vector that fails has left the whole state as it was, except that
-- EIO of a request that is no query, and EIO and ENOMEM of a write, may come after a change.
pub failed_request_keeps_state :
    (host : Host) (r : Request) (s s' : FsState) (e : Errno)
    → run host r s ≡ (err e, s')
    → MayReturnLate r e ⊎ (s' ≡ s)
failed_request_keeps_state host r s s' e h =
    subst (Clean (MayReturnLate r) s) h ((run-Atomic host r).clean s)
