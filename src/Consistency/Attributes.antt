-- ===== src/Consistency/Attributes.antt =====
-- `fs_chmod` and `fs_utime` of homework.c on a consistent volume.
use fuse_file_system.Prelude.{
  ◌==◌, ==→eq, ==→ne, sym, ℕ, ◌/◌, ◌%◌, ◌≡◌, ◌≢◌, ◌⊎◌, ◌∙◌, refl, ap, true, false, inl, inr, arith,
  Bool-cases,
}
use fuse_file_system.Layout.{Inode, decode_inode, encode_inode}
use fuse_file_system.Layout.RoundTrip.{
  FitsInode, decode-encode_inode, encode_inode-FitsBlock, decode_inode-FitsInode,
}
use fuse_file_system.State.{FsState, Errno, ok, eisdir}
use fuse_file_system.Disk.{block_write}
use fuse_file_system.Disk.Laws.{
  with_block, block_write-ok, block-put_block_ne, block-put_block_self,
}
use fuse_file_system.Paths.{CString, is_reg}
use fuse_file_system.Attributes.{fs_chmod, fs_utime}
use fuse_file_system.Attributes.Rewrite.{path_to_target}
use fuse_file_system.Attributes.Change.{
  with_permissions_lem, chmod_inode, chmod_inode-FitsInode, utime_inode, utime_inode-FitsInode,
}
use fuse_file_system.Volume.{inode_at}
use fuse_file_system.Volume.Keeps.{with_block-IsVolume}
use fuse_file_system.Consistency.{
  plain, folder, Kind, Place, Role, node, is_spare, IsFolder, IsPlain, IsConsistent,
}
use fuse_file_system.Consistency.Frame.{role-below}
use fuse_file_system.Consistency.Paths.{
  IsPathError, Finds, finds, no_path, path-Whole, finds-IsTarget,
}
use fuse_file_system.Consistency.Change.{Anew, IsChange, IsChange-IsConsistent}
use fuse_file_system.Namespace.{Kept, names_of}
use fuse_file_system.Namespace.Follow.{names_of_folder, names_of_file}
use fuse_file_system.Namespace.Frame.{names_kept}
use fuse_file_system.Consistency.Outcome.{IsSound, Ended, ok-Ended, err-Ended, put_block-FitsBlock}

-- Inode `n` differs from inode `o` in no field that other blocks depend on.
pub record IsTouched (o n : Inode) : Type 0 where
  pub fits : FitsInode n
  pub type_bits : n.mode / 4096 % 16 ≡ o.mode / 4096 % 16
  pub size : n.size ≡ o.size
  pub ptrs : n.ptrs ≡ o.ptrs

module _ {s : FsState} {role : ℕ → Role} (c : IsConsistent s role) {i : ℕ} {kind : Kind}
    {place : Place} (h : role i ≡ node kind place) {n : Inode}
    (t : IsTouched (inode_at s i) n) where
  after : FsState
  after = with_block s i (encode_inode n)

  written : inode_at after i ≡ n
  unfolding after
  written =
      ap decode_inode (block-put_block_self s.image i (encode_inode n))
      ∙ decode-encode_inode n t.fits

  not_one : i ≢ 1
  not_one e = cc (c.bitmap, h, e)

  touched-IsFolder : IsFolder s role i → IsFolder after role i
  touched-IsFolder f = record {
    directory = rw (written, t.type_bits) f.directory;
    one_block = rw (written, t.size) f.one_block;
    listed = rw (written, t.ptrs) f.listed;
  }

  touched-IsPlain : IsPlain s role i → IsPlain after role i
  touched-IsPlain f = record {
    regular = rw (written, t.type_bits) f.regular;
    small = rw (written, t.size) f.small;
    few = rw (written, t.size) f.few;
    owned = rw (written, t.size, t.ptrs) f.owned;
  }

  only_inode : (b : ℕ) → Anew role i b → is_spare (role b) ≡ false → b ≡ i
  only_inode b (inl e) live = e
  only_inode b (inr free) live = cc

  touched : IsChange s after role role i
  unfolding after
  touched = record {
    volume = with_block-IsVolume i _ not_one c.volume;
    superblock = refl;
    not_super = λ e. cc (c.super, h, e);
    bytes = λ b lt.
        put_block-FitsBlock i (encode_inode n) b (c.volume.on_disk b lt) (encode_inode-FitsBlock n)
          (c.bytes b lt);
    format = λ b lt. refl;
    in_range = c.in_range;
    in_use = c.in_use;
    old = λ b a a'. refl;
    same = λ b a a' n1 ne. block-put_block_ne i _ (c.volume.on_disk b (role-below c b a)) ne;
    keeps_listing = λ b j l a ne. l;
    keeps_content = λ b j k l a ne. l;
    keeps_node = λ b e k kind l a ne. l;
    folders = λ b a hb.
        let e = only_inode b a (rw hb refl) in rw e (touched-IsFolder (c.folders i (rw e at hb)));
    plains = λ b a hb.
        let e = only_inode b a (rw hb refl) in rw e (touched-IsPlain (c.plains i (rw e at hb)));
    listings = λ b a hb. let e = only_inode b a (rw hb refl) in cc (e, h, hb);
  }

  touched-IsSound : IsSound (with_block s i (encode_inode n))
  unfolding after
  touched-IsSound = (role, IsChange-IsConsistent c touched)

  folder_names :
      (place : Place)
      → role i ≡ node folder place
      → (t : CString) → names_of after i t ≡ names_of s i t
  unfolding after
  folder_names place hf u =
      let f = c.folders i hf in
      let f' = touched-IsFolder f in
      let l = (inode_at s i).ptrs 0 in
      let pointer : (inode_at (with_block s i (encode_inode n)) i).ptrs 0 ≡ l =
        rw (written, t.ptrs) refl in
      let apart : l ≢ i = λ e. cc (f.listed, hf, e) in
      let same =
        touched.same l (rw f.listed refl) (rw f.listed refl) (λ e. cc (c.bitmap, f.listed, e))
          apart in
      names_of_folder (with_block s i (encode_inode n)) i u f'.directory
      ∙ rw (pointer, same) refl
      ∙ sym (names_of_folder s i u f.directory)

  own_names :
      (k : Kind) (place : Place)
      → role i ≡ node k place
      → (t : CString) → names_of after i t ≡ names_of s i t
  own_names folder place hk u = folder_names place hk u
  own_names plain place hk u =
      let f = c.plains i hk in
      let f' = touched-IsPlain f in
      names_of_file after i u (ground (arith, f'.regular))
      ∙ sym (names_of_file s i u (ground (arith, f.regular)))

  touched-Kept : Kept s role after
  touched-Kept j (k, pl, hj) u token short = elim (Bool-cases (j == i)) [
    | inl same ↦ let e = ==→eq j i same in rw e (own_names k pl (rw e at hj) u)
    | inr other ↦
        names_kept c touched j k hj (rw hj refl) (==→ne j i other)
          (λ is_folder e.
            let dir : role j ≡ node folder _ = rw is_folder at hj in
            let own = (c.folders j dir).listed in cc (own, h, e))
          u
  ]

  -- A touched inode leaves a consistent volume with the same names.
  pub touched_ends :
      IsSound (with_block s i (encode_inode n)) × Kept s role (with_block s i (encode_inode n))
  unfolding after
  touched_ends = (touched-IsSound, touched-Kept)

abbrev pub IsUtimeError : Errno → Type 0
IsUtimeError e = IsPathError e ⊎ (e ≡ eisdir)

module _ {s : FsState} {role : ℕ → Role} (c : IsConsistent s role) where
  node-FitsInode :
      (i : ℕ) {kind : Kind} {place : Place} → role i ≡ node kind place → FitsInode (inode_at s i)
  node-FitsInode i h = decode_inode-FitsInode (c.bytes i (role-below c i (rw h refl)))

  write_node :
      (i : ℕ) (n : Inode) {kind : Kind} {place : Place}
      → role i ≡ node kind place
      → block_write (encode_inode n) i s ≡ (ok tt, with_block s i (encode_inode n))
  write_node i n h =
      let ne : i ≢ 0 = λ e. cc (c.super, h, e) in
      block_write-ok {s = s} (c.volume.on_disk i (role-below c i (rw h refl))) (encode_inode n)
        (omega arith)

  chmod_found :
      (path : CString) (mode i : ℕ) {kind : Kind} {place : Place}
      → Finds s role path i kind place
      → fs_chmod path mode s
        ≡ (ok tt, with_block s i (encode_inode (chmod_inode (inode_at s i) mode)))
  unfolding fs_chmod
  chmod_found path mode i f =
      rw
        (
          path_to_target c.volume (finds-IsTarget c f),
          with_permissions_lem (inode_at s i).mode mode,
        )
        (write_node i (chmod_inode (inode_at s i) mode) f.role_of)

  -- `fs_chmod` keeps a volume consistent, or returns an error of the path.
  pub fs_chmod-Ended :
      (path : CString) (mode : ℕ) → Ended IsPathError (Kept s role) s (fs_chmod path mode s)
  unfolding fs_chmod
  fs_chmod-Ended path mode = elim (path-Whole c path) [
    | no_path e why h gone ↦ err-Ended IsPathError (Kept s role) s (rw h) why
    | finds i kind place f ↦ ok-Ended IsPathError (Kept s role) s (chmod_found path mode i f) (
        touched_ends c f.role_of (record {
          fits = chmod_inode-FitsInode _ mode (node-FitsInode i f.role_of);
          type_bits = omega arith;
          size = refl;
          ptrs = refl;
        }))
  ]

  utime_found :
      (path : CString) (modtime i : ℕ) {kind : Kind} {place : Place}
      → Finds s role path i kind place
      → is_reg (inode_at s i).mode ≡ true
      → fs_utime path modtime s
        ≡ (ok tt, with_block s i (encode_inode (utime_inode (inode_at s i) modtime)))
  unfolding fs_utime
  utime_found path modtime i f reg =
      rw (path_to_target c.volume (finds-IsTarget c f), reg)
        (write_node i (utime_inode (inode_at s i) modtime) f.role_of)

  -- `fs_utime` keeps a volume consistent, or returns an error of the path, or EISDIR.
  pub fs_utime-Ended :
      (path : CString) (modtime : ℕ) → Ended IsUtimeError (Kept s role) s (fs_utime path modtime s)
  unfolding fs_utime
  fs_utime-Ended path modtime = elim (path-Whole c path) [
    | no_path e why h gone ↦ err-Ended IsUtimeError (Kept s role) s (rw h) (inl why)
    | finds i kind place f ↦ elim (Bool-cases (is_reg (inode_at s i).mode)) [
      | inl reg ↦ ok-Ended IsUtimeError (Kept s role) s (utime_found path modtime i f reg) (
          touched_ends c f.role_of (record {
            fits = utime_inode-FitsInode _ modtime (node-FitsInode i f.role_of);
            type_bits = refl;
            size = refl;
            ptrs = refl;
          }))
      | inr dir ↦
          err-Ended IsUtimeError (Kept s role) s
            (rw (path_to_target c.volume (finds-IsTarget c f), dir)) (inr refl)
    ]
  ]
