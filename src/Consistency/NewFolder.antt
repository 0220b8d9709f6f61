-- ===== src/Consistency/NewFolder.antt =====
-- The blocks of a directory that `fs_mkdir` of homework.c has made, and what they hold.
use fuse_file_system.Prelude.{
  ℕ, ◌-◌, ◌<◌, ◌≡◌, ◌≢◌, ◌∙◌, refl, sym, true, false, List, [], ◌∷◌, arith, ◌==◌, if◌then◌else◌,
  eq→==, ne→==,
}
use fuse_file_system.Layout.{Block, encode_inode, decode_dir, encode_dir, zeros}
use fuse_file_system.Layout.RoundTrip.{FitsBlock, encode_inode-FitsBlock}
use fuse_file_system.State.{FsState}
use fuse_file_system.Host.{Host}
use fuse_file_system.Disk.{put_block}
use fuse_file_system.Disk.Laws.{
  with_block, OnDisk-put_block, block-put_block_ne, block-put_block_self,
}
use fuse_file_system.Bitmap.Count.{Distinct}
use fuse_file_system.Bitmap.Modify.{marked, marked-FitsBlock}
use fuse_file_system.Bitmap.Search.{free_blocks}
use fuse_file_system.Paths.{CString, is_named, max_name_len}
use fuse_file_system.Rename.Names.{IsToken}
use fuse_file_system.Create.{new_inode}
use fuse_file_system.Create.Success.{HasRoom}
use fuse_file_system.Create.Entry.{with_entry}
use fuse_file_system.Create.Directories.{made, fresh}
use fuse_file_system.Volume.{IsVolume, dir_at}
use fuse_file_system.Consistency.{
  folder, under, Role, node, listing, is_spare, IsListing, IsConsistent,
}
use fuse_file_system.Consistency.Frame.{unused-spare}
use fuse_file_system.Consistency.Outcome.{put_block-FitsBlock}
use fuse_file_system.Consistency.Entries.{entries-FitsBlock}
use fuse_file_system.Consistency.NewEntry.{new-IsEntry}

-- The roles once block `n` is the inode of a directory in the entry, and block `m` has its entries.
abbrev pub with_folder : (ℕ → Role) → (d slot n m : ℕ) → ℕ → Role
with_folder role d slot n m b =
    if b == n then node folder (under d slot) else if b == m then listing n else role b

-- What `fs_mkdir` leaves on the blocks `n` and `m` that it takes, and in entry `slot` of directory `d`.
pub record IsNewFolder (host : Host) (mode : ℕ) (s after : FsState) (role role' : ℕ → Role)
    (t : CString) (d slot n m : ℕ) : Type 0 where
  pub adds : (b : ℕ) → is_spare (role b) ≡ false → role' b ≡ role b
  pub bytes : (b : ℕ) → b < s.superblock.disk_size → FitsBlock (after.image.block b)
  pub at_d : after.image.block d ≡ encode_dir (with_entry s t d slot n)
  pub at_n : after.image.block n ≡ encode_inode (new_inode host mode true m)
  pub d_taken : is_spare (role d) ≡ false
  pub empty : IsListing after role' m
  pub m_below : m < s.superblock.disk_size
  pub m_role : role' m ≡ listing n
  pub m_spare : is_spare (role m) ≡ true
  pub n_below : n < s.superblock.disk_size
  pub n_role : role' n ≡ node folder (under d slot)
  pub n_spare : is_spare (role n) ≡ true
  pub ne_fresh : (b k : ℕ) → is_spare (role b) ≡ false → is_spare (role k) ≡ true → b ≢ k
  pub not_named : (k : ℕ) (u : CString) → is_named u (dir_at after m k) ≡ false
  pub old_block :
      (b : ℕ)
      → b < s.superblock.disk_size
      → b ≢ 1
      → b ≢ d
      → b ≢ n
      → b ≢ m
      → after.image.block b ≡ s.image.block b

module _ {s : FsState} {role : ℕ → Role} (c : IsConsistent s role) {path : CString}
    {ts : List CString} {t : CString} {p d slot : ℕ} (h : HasRoom s path ts t p d slot)
    (listed : role d ≡ listing p) (token : IsToken t) (host : Host) (mode n m : ℕ) (rest : List ℕ)
    (found : free_blocks s.bitmap (s.superblock.disk_size - 0) 0 ≡ n ∷ m ∷ rest) where
  v : IsVolume s
  v = c.volume

  free : Distinct false s.superblock.disk_size s.bitmap (n ∷ m ∷ [])
  free = fresh v h host mode n m rest found

  abbrev after : FsState
  after = made host mode s t d slot n m

  abbrev role' : ℕ → Role
  role' = with_folder role d slot n m

  -- What the two blocks are: in range, free, and different.
  n_below : n < s.superblock.disk_size
  unfolding Distinct
  n_below = free.0

  m_below : m < s.superblock.disk_size
  unfolding Distinct
  m_below = free.3.0

  n_spare : is_spare (role n) ≡ true
  unfolding Distinct
  n_spare = unused-spare c n free.0 free.1

  m_spare : is_spare (role m) ≡ true
  unfolding Distinct
  m_spare = unused-spare c m free.3.0 free.3.1

  m-ne_n : m ≢ n
  unfolding Distinct
  m-ne_n = ground (arith, free.2)

  d_taken : is_spare (role d) ≡ false
  d_taken = rw listed refl

  ne_fresh : (b k : ℕ) → is_spare (role b) ≡ false → is_spare (role k) ≡ true → b ≢ k
  ne_fresh b k live spare_k e = cc (live, spare_k, e)

  spare-ne_one : (k : ℕ) → is_spare (role k) ≡ true → k ≢ 1
  spare-ne_one k spare_k e = let taken : is_spare (role 1) ≡ false = rw c.bitmap refl in cc

  adds : (b : ℕ) → is_spare (role b) ≡ false → role' b ≡ role b
  adds b live = rw (ne→== b n (ne_fresh b n live n_spare), ne→== b m (ne_fresh b m live m_spare))

  n_role : role' n ≡ node folder (under d slot)
  n_role = rw (eq→== n n refl)

  m_role : role' m ≡ listing n
  m_role = rw (ne→== m n m-ne_n, eq→== m m refl)

  -- The four writes, from the first on.
  inode_block : Block
  inode_block = encode_inode (new_inode host mode true m)

  entries_block : Block
  entries_block = encode_dir (with_entry s t d slot n)

  s2 : FsState
  s2 = with_block (with_block s n inode_block) d entries_block

  behind :
      (b : ℕ) → b < s.superblock.disk_size → b ≢ 1 → b ≢ m → after.image.block b ≡ s2.image.block b
  unfolding s2 inode_block entries_block
  behind b lt n1 nm =
      let on = OnDisk-put_block d entries_block (OnDisk-put_block n inode_block (v.on_disk b lt)) in
      block-put_block_ne 1 _ (OnDisk-put_block m zeros on) n1 ∙ block-put_block_ne m zeros on nm

  old_block :
      (b : ℕ)
      → b < s.superblock.disk_size
      → b ≢ 1
      → b ≢ d
      → b ≢ n
      → b ≢ m
      → after.image.block b ≡ s.image.block b
  unfolding s2
  old_block b lt n1 nd nn nm =
      behind b lt n1 nm
      ∙ block-put_block_ne d _ (OnDisk-put_block n _ (v.on_disk b lt)) nd
      ∙ block-put_block_ne n _ (v.on_disk b lt) nn

  at_d : after.image.block d ≡ encode_dir (with_entry s t d slot n)
  unfolding s2 entries_block
  at_d =
      behind d h.below h.not_bitmap (ne_fresh d m d_taken m_spare)
      ∙ block-put_block_self (put_block s.image n inode_block) d _

  at_n : after.image.block n ≡ encode_inode (new_inode host mode true m)
  unfolding s2 inode_block
  at_n =
      behind n n_below (spare-ne_one n n_spare) (λ e. m-ne_n (sym e))
      ∙ block-put_block_ne d _ (OnDisk-put_block n _ (v.on_disk n n_below))
          (λ e. ne_fresh d n d_taken n_spare (sym e))
      ∙ block-put_block_self s.image n _

  at_m : after.image.block m ≡ zeros
  unfolding s2 inode_block entries_block
  at_m =
      block-put_block_ne 1 _
        (OnDisk-put_block m zeros
          (OnDisk-put_block d entries_block (OnDisk-put_block n inode_block (v.on_disk m m_below))))
        (spare-ne_one m m_spare)
      ∙ block-put_block_self s2.image m zeros

  after-FitsBlock : (b : ℕ) → b < s.superblock.disk_size → FitsBlock (after.image.block b)
  unfolding inode_block entries_block
  after-FitsBlock b lt =
      let on = v.on_disk b lt in
      let on' = OnDisk-put_block n inode_block on in
      let on'' = OnDisk-put_block d entries_block on' in
      put_block-FitsBlock 1 (marked true (n ∷ m ∷ []) s.bitmap) b (OnDisk-put_block m zeros on'')
        (marked-FitsBlock true (n ∷ m ∷ []) v.bytes)
        (put_block-FitsBlock m zeros b on'' (λ o. omega arith)
          (put_block-FitsBlock d entries_block b on'
            (entries-FitsBlock (c.bytes d h.below)
              (new-IsEntry c h listed token role' n folder n_below n_role adds))
            (put_block-FitsBlock n inode_block b on
              (encode_inode-FitsBlock (new_inode host mode true m)) (c.bytes b lt))))

  -- The new block of entries is empty.
  empty_entry :
      (k : ℕ) → ((dir_at after m k).valid ≡ 0) × ((dir_at after m k).name max_name_len ≡ 0)
  unfolding decode_dir
  empty_entry k = rw at_m (refl, refl)

  not_named : (k : ℕ) (u : CString) → is_named u (dir_at after m k) ≡ false
  unfolding is_named
  not_named k u = rw (empty_entry k).0 refl

  m-IsListing : IsListing after role' m
  m-IsListing = record {
    entered = λ k lt valid. absurd (valid (empty_entry k).0);
    ends = λ k. (empty_entry k).1;
    unique = λ j k lj lk ne u token short named. not_named k u;
  }

  pub new_folder :
      IsNewFolder host mode s
        (made host mode s t d slot n m)
        role
        (with_folder role d slot n m)
        t
        d
        slot
        n
        m
  new_folder = record {
    adds = adds;
    bytes = after-FitsBlock;
    at_d = at_d;
    at_n = at_n;
    d_taken = d_taken;
    empty = m-IsListing;
    m_below = m_below;
    m_role = m_role;
    m_spare = m_spare;
    n_below = n_below;
    n_role = n_role;
    n_spare = n_spare;
    ne_fresh = ne_fresh;
    not_named = not_named;
    old_block = old_block;
  }
