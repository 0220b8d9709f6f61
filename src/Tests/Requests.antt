-- ===== src/Tests/Requests.antt =====
-- Requests to the volume that fail or only look.
use fuse_file_system.Prelude.{◌≡◌, ◌⊎◌, refl, [], ◌∷◌}
use fuse_file_system.State.{err, einval}
use fuse_file_system.Paths.{CString}
use fuse_file_system.Truncate.{fs_truncate}
use fuse_file_system.Requests.{run, truncate, readdir}
use fuse_file_system.Atomicity.Requests.{
  MayReturnLate, query_keeps_state, failed_request_keeps_state,
}
use fuse_file_system.Tests.Fixture.{host, volume}

abbrev path_a : CString
path_a = b'/' ∷ b'a' ∷ []

query_keeps_state_example : (run host (readdir path_a 0) volume).1 ≡ volume
query_keeps_state_example = query_keeps_state host (readdir path_a 0) volume tt

-- A negative length.
negative_length : run host (truncate path_a 0xffffffffffffffff) volume ≡ (err einval, volume)
unfolding run fs_truncate
negative_length = refl

failed_request_keeps_state_example :
    MayReturnLate (truncate path_a 0xffffffffffffffff) einval ⊎ (volume ≡ volume)
failed_request_keeps_state_example =
    failed_request_keeps_state host (truncate path_a 0xffffffffffffffff) volume volume einval
      negative_length
