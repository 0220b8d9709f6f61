-- ===== src/Tests/Sequences.antt =====
-- Requests to the consistent volume of the tests, one behind the other.
use fuse_file_system.Prelude.{◌≡◌, ◌≢◌, inl, inr, refl, [], ◌∷◌, arith}
use fuse_file_system.State.{FsState, ok}
use fuse_file_system.Paths.{
  path_to_inode, root_inum, CString, parse, parse_loop, strtok, skip_slashes, until_slash,
  after_slash,
}
use fuse_file_system.Mount.{fs_init}
use fuse_file_system.Mount.Opens.{statistics}
use fuse_file_system.Requests.{Request, create, unlink, getattr, run}
use fuse_file_system.Consistency.{IsNode}
use fuse_file_system.Consistency.Tokens.{IsBytes}
use fuse_file_system.Namespace.{Step, follow, names_of}
use fuse_file_system.Namespace.Resolution.{Answers, path_to_inode-follow}
use fuse_file_system.Consistency.Outcome.{IsSound, Ended}
use fuse_file_system.Consistency.Requests.{
  IsProper, IsErrorOf, request_ends, Reaches, start, then_run, then_mount,
  reachable_states_consistent, reachable_states_mount,
}
use fuse_file_system.Tests.Fixture.{host, volume, path_d_x}
use fuse_file_system.Tests.Sound.{roles, volume-IsConsistent}

abbrev path_a : CString
path_a = b'/' ∷ b'a' ∷ []

abbrev make_x : Request
make_x = create path_d_x 0o100644

abbrev remove_a : Request
remove_a = unlink path_a

d_x-below_root : parse path_d_x ≢ []
unfolding parse parse_loop strtok skip_slashes until_slash after_slash
d_x-below_root e = cc

a-below_root : parse path_a ≢ []
unfolding parse parse_loop strtok skip_slashes until_slash after_slash
a-below_root e = cc

d_x-IsBytes : IsBytes path_d_x
d_x-IsBytes = (
  (omega arith, omega arith),
  ((omega arith, omega arith), ((omega arith, omega arith), ((omega arith, omega arith), tt))),
)

make_x-IsProper : IsProper make_x
make_x-IsProper = (d_x-IsBytes, d_x-below_root, omega arith, refl)

remove_a-IsProper : IsProper remove_a
remove_a-IsProper = (((omega arith, omega arith), ((omega arith, omega arith), tt)), a-below_root)

request_ends_example :
    Ended
      (IsErrorOf make_x)
      (λ s'. Step make_x (IsNode roles) (names_of volume) (names_of s'))
      volume
      (run host make_x volume)
request_ends_example = request_ends volume-IsConsistent host make_x make_x-IsProper

path_to_inode-follow_example :
    Answers volume
      (follow (names_of volume) (parse path_d_x) root_inum)
      (path_to_inode path_d_x 0 volume)
path_to_inode-follow_example = path_to_inode-follow volume-IsConsistent path_d_x

-- The file "/d/x" is made, the disk is mounted again, "/a" is removed, and the attributes of "/d/x" are asked for.
abbrev last_state : FsState
last_state =
    (run host (getattr path_d_x) (run host remove_a (fs_init (run host make_x volume).1).1).1).1

three_requests : Reaches volume last_state
three_requests =
    then_run host (getattr path_d_x)
      (then_run host remove_a (then_mount (then_run host make_x start (inl make_x-IsProper)))
        (inl remove_a-IsProper))
      (inr tt)

reachable_states_consistent_example : IsSound last_state
reachable_states_consistent_example =
    reachable_states_consistent (roles, volume-IsConsistent) three_requests

reachable_states_mount_example :
    let (r, again) = fs_init last_state in
    (r ≡ ok tt)
    × (again.image ≡ last_state.image)
    × (again.superblock ≡ last_state.superblock)
    × (again.bitmap ≡ last_state.bitmap)
    × (again.stat_vfs ≡ statistics last_state.superblock.disk_size last_state.stat_vfs.bfree)
    × (last_state.stat_vfs.bavail ≡ last_state.stat_vfs.bfree)
reachable_states_mount_example = reachable_states_mount (roles, volume-IsConsistent) three_requests
