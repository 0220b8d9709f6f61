-- ===== src/Tests/Renaming.antt =====
-- `fs_rename` of "/a" to "/b".
use fuse_file_system.Prelude.{
  ℕ, zero, suc, ◌≡◌, ◌≢◌, ◌∙◌, ◌<◌, refl, false, [], ◌∷◌, arith, get_or, ◌==◌, Bool-cases, inl, inr,
  length,
}
use fuse_file_system.Layout.RoundTrip.{decode-encode_dir, encode_dir-FitsBlock}
use fuse_file_system.State.{ok, err, enoent}
use fuse_file_system.Paths.{
  CString, parse, parse_loop, strtok, skip_slashes, until_slash, after_slash, is_named, same_string,
}
use fuse_file_system.Paths.Entries.{is_named-SameDirent}
use fuse_file_system.Attributes.{inode_to_stat, fs_getattr}
use fuse_file_system.Rename.{fs_rename}
use fuse_file_system.Rename.Names.{IsToken}
use fuse_file_system.Rename.Success.{CanRename, renamed}
use fuse_file_system.Rename.Lookup.{Renamable, rename_then_getattr}
use fuse_file_system.Volume.{IsVolume, inode_at}
use fuse_file_system.Tests.Fixture.{
  volume, volume-IsVolume, root_entries, root_entries-FitsDirectory,
}
use fuse_file_system.Tests.Removing.{has_a, other_names}

abbrev a : CString
a = b'a' ∷ []

abbrev b : CString
b = b'b' ∷ []

abbrev path_a : CString
path_a = b'/' ∷ b'a' ∷ []

abbrev path_b : CString
path_b = b'/' ∷ b'b' ∷ []

not_b : (m : ℕ) → is_named b (root_entries m) ≡ false
unfolding is_named same_string
not_b m = elim (Bool-cases (m == 0)) [
  | inl e ↦ rw e
  | inr e ↦ elim (Bool-cases (m == 1)) [ inl e' ↦ rw (e, e') | inr e' ↦ rw (e, e') ]
]

a_to_b : CanRename volume path_a path_b [] a b 2 3 0 4
unfolding parse parse_loop strtok skip_slashes until_slash after_slash
a_to_b = record {
  entry = has_a;
  file = omega arith;
  dst_parsed = refl;
  absent = λ m lt.
      is_named-SameDirent b _ _ (omega arith)
        (decode-encode_dir root_entries root_entries-FitsDirectory m)
      ∙ not_b m;
}

one_letter : (c : ℕ) → c < 256 → 0 < c → IsToken (c ∷ [])
one_letter c lt pos = record { bytes = bytes; no_nul = no_nul }
  where
    bytes : (i : ℕ) → get_or (c ∷ []) i 0 < 256
    bytes zero = lt
    bytes (suc i) = omega arith

    no_nul : (i : ℕ) → i < length (c ∷ []) → get_or (c ∷ []) i 0 ≢ 0
    no_nul zero h e = omega arith
    no_nul (suc i) h e = omega arith

renamable : Renamable volume a b 3 0 4
renamable = record {
  entries = encode_dir-FitsBlock root_entries root_entries-FitsDirectory;
  old = one_letter b'a' (omega arith) (omega arith);
  new = one_letter b'b' (omega arith) (omega arith);
  only = other_names;
  apart = omega arith;
}

rename_then_getattr_example :
    let s' = renamed volume 3 0 b in
    (fs_rename path_a path_b volume ≡ (ok tt, s'))
    × IsVolume s'
    × (fs_getattr path_b s' ≡ (ok (inode_to_stat (inode_at volume 4)), s'))
    × (fs_getattr path_a s' ≡ (err enoent, s'))
rename_then_getattr_example = rename_then_getattr volume-IsVolume a_to_b renamable
