-- ===== src/Create/Success.antt =====
-- When `fs_create` succeeds, and the state that it leaves.
use fuse_file_system.Prelude.{ℕ, ◌-◌, ◌<◌, ◌≡◌, ◌≢◌, true, false, List, [], ◌∷◌, arith}
use fuse_file_system.Layout.{encode_inode, encode_dir, max_dir_entries}
use fuse_file_system.State.{FsState, ok}
use fuse_file_system.Host.{Host}
use fuse_file_system.Disk.Laws.{with_block, block_read-ok, block_write-ok, OnDisk-put_block}
use fuse_file_system.Bitmap.{find_first_nfree_blocks}
use fuse_file_system.Bitmap.Bits.{used}
use fuse_file_system.Bitmap.Search.{free_blocks, find_first_nfree_blocks_lem}
use fuse_file_system.Bitmap.Fresh.{free_head}
use fuse_file_system.Bitmap.Modify.{with_bitmap, modify_bitmap-ok}
use fuse_file_system.Paths.{CString, is_named}
use fuse_file_system.Paths.Parse.{last_token-append}
use fuse_file_system.Paths.Entries.{First, First-find_entry, find_entry-none}
use fuse_file_system.Directory.{
  is_free, validate_directory_and_entry, find_free_dir_entry, set_entry,
}
use fuse_file_system.Create.{
  take_blocks, new_inode, new_entry, create_entry, create_directory_entry, fs_create,
}
use fuse_file_system.Volume.{IsVolume, inode_at, dir_at}
use fuse_file_system.Directory.Place.{IsPlace, path_to_place, get_entry_name-ok}

-- The directory has no entry of the name `t`, and entry `slot` is its first free one.
pub record HasRoom (s : FsState) (path : CString) (ts : List CString) (t : CString) (p d slot : ℕ)
    : Type 0 where
  pub place : IsPlace s path ts t p d
  pub open place use *
  pub absent : (m : ℕ) → m < max_dir_entries → is_named t (dir_at s d m) ≡ false
  pub room : First is_free (dir_at s d) max_dir_entries 0 slot

-- What `fs_create` leaves: the inode in block `n`, the entry in the directory, the bit and the count.
abbrev pub created : Host → ℕ → FsState → CString → (d slot n : ℕ) → FsState
created host mode s t d slot n = with_bitmap true (n ∷ []) (
    take_blocks 1 (
      with_block (with_block s n (encode_inode (new_inode host mode false 0))) d
        (encode_dir (set_entry (dir_at s d) slot (new_entry (dir_at s d slot) t n)))))

-- A directory without the name is accepted.
pub validated_absent :
    {s : FsState} {path : CString} {ts : List CString} {t : CString} {p d : ℕ}
    → IsVolume s
    → IsPlace s path ts t p d
    → ((m : ℕ) → m < max_dir_entries → is_named t (dir_at s d m) ≡ false)
    → validate_directory_and_entry path (inode_at s p) s ≡ (ok (dir_at s d), s)
unfolding validate_directory_and_entry
validated_absent {s} {ts} {t} {d} v h absent = rw (
  h.directory,
  h.pointer,
  block_read-ok {s = s} (v.on_disk d h.below),
  h.parsed,
  last_token-append ts t,
  find_entry-none (is_named t) (dir_at s d) max_dir_entries 0 (λ m lo hi. absent m (omega arith)),
)

module _ {s : FsState} {path : CString} {ts : List CString} {t : CString} {p d slot : ℕ}
    (v : IsVolume s) (h : HasRoom s path ts t p d slot) where
  pub validated : validate_directory_and_entry path (inode_at s p) s ≡ (ok (dir_at s d), s)
  validated = validated_absent v h.place h.absent

  pub free_slot : find_free_dir_entry (dir_at s d) 0 s ≡ (ok slot, s)
  unfolding find_free_dir_entry
  free_slot =
      rw (First-find_entry is_free (dir_at s d) max_dir_entries 0 slot h.room, find_free_dir_entry)

  module _ (host : Host) (mode n : ℕ) (rest : List ℕ)
      (free : free_blocks s.bitmap (s.superblock.disk_size - 0) 0 ≡ n ∷ rest) where
    pub is_fresh : (n < s.superblock.disk_size) × (used s.bitmap n ≡ false)
    is_fresh = free_head s.bitmap s.superblock.disk_size n rest free

    one_block : find_first_nfree_blocks 0 1 s ≡ (ok (n ∷ []), s)
    one_block =
        rw (find_first_nfree_blocks_lem 0 1 s (omega arith) v.fits_bitmap, free) (ground arith)

    free_ne_super : n ≢ 0
    free_ne_super e = cc (v.super_used, is_fresh.1, e)

    -- The calls behind the search for a block.
    entered :
        create_entry host path mode false d (dir_at s d) slot (n ∷ []) s
        ≡ (ok tt, created host mode s t d slot n)
    unfolding create_entry
    entered =
        let dn = v.on_disk n is_fresh.0 in
        let dd = v.on_disk d h.below in
        let d1 = v.on_disk 1 (omega (arith, v.has_root)) in
        let inode = encode_inode (new_inode host mode false 0) in
        let entries = encode_dir (set_entry (dir_at s d) slot (new_entry (dir_at s d slot) t n)) in
        let s1 = with_block s n inode in
        let s2 = with_block s1 d entries in
        rw (
          block_write-ok {s = s} dn inode (omega (arith, free_ne_super)),
          get_entry_name-ok h.place s1,
          block_write-ok {s = s1} (OnDisk-put_block n inode dd) entries
              (omega (arith, h.not_super)),
          modify_bitmap-ok true (n ∷ []) (take_blocks 1 s2)
              (omega (arith, v.fits_bitmap, is_fresh.0), tt)
              (OnDisk-put_block d entries (OnDisk-put_block n inode d1)),
        )

    -- `fs_create` returns 0 and leaves the state `created`.
    pub fs_create-ok : fs_create host path mode s ≡ (ok tt, created host mode s t d slot n)
    unfolding fs_create create_directory_entry
    fs_create-ok = rw (path_to_place v h.place, validated, free_slot, one_block, h.pointer) entered
