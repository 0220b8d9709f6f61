-- ===== src/Consistency/Entries.antt =====
-- A block of entries of a consistent volume in which an operation of homework.c has set one entry.
use fuse_file_system.Prelude.{
  ℕ, ◌≤◌, ◌<◌, ◌≡◌, ◌≢◌, ◌∙◌, refl, sym, subst, true, false, arith, length, ◌==◌, ==→eq, ==→ne,
  eq→==, ne→==, inl, inr, Bool-cases,
}
use fuse_file_system.Layout.{Dirent, Directory, encode_dir, max_dir_entries}
use fuse_file_system.Layout.RoundTrip.{
  FitsBlock, FitsDirent, FitsDirectory, SameDirent, decode-encode_dir, encode_dir-FitsBlock,
  decode_dir-FitsDirectory,
}
use fuse_file_system.State.{FsState}
use fuse_file_system.Paths.{CString, max_name_len, is_named}
use fuse_file_system.Paths.Entries.{is_named-SameDirent}
use fuse_file_system.Rename.Names.{IsToken}
use fuse_file_system.Directory.{set_entry}
use fuse_file_system.Volume.{dir_at}
use fuse_file_system.Consistency.{Kind, under, Role, node, IsListing}

-- What the new entry has to be, in a listing with the new roles.
pub record IsEntry (s : FsState) (role role' : ℕ → Role) (d slot : ℕ) (e : Dirent) : Type 0 where
  pub fits : FitsDirent e
  pub slot_below : slot < max_dir_entries
  pub target : e.valid ≢ 0 → (kind : Kind) × (role' e.inode ≡ node kind (under d slot))
  pub ends : e.name max_name_len ≡ 0
  pub alone :
      (k : ℕ)
      → k < max_dir_entries
      → k ≢ slot
      → (t : CString) → IsToken t
      → length t ≤ max_name_len
      → is_named t e ≡ true
      → is_named t (dir_at s d k) ≡ false
  pub others :
      (b k : ℕ) (kind : Kind)
      → k ≢ slot
      → (dir_at s d k).valid ≢ 0
      → role b ≡ node kind (under d k)
      → role' b ≡ node kind (under d k)

set_entry-FitsDirectory :
    (dir : Directory) (slot : ℕ) (e : Dirent)
    → FitsDirectory dir
    → FitsDirent e
    → FitsDirectory (set_entry dir slot e)
set_entry-FitsDirectory dir slot e old new k = elim (Bool-cases (k == slot)) [
  | inl here ↦ rw here new
  | inr other ↦ rw other (old k)
]

module _ {s : FsState} {role role' : ℕ → Role} {d slot : ℕ} {e : Dirent}
    (bytes : FitsBlock (s.image.block d)) (n : IsEntry s role role' d slot e) where
  dir-FitsDirectory : FitsDirectory (set_entry (dir_at s d) slot e)
  dir-FitsDirectory =
      set_entry-FitsDirectory (dir_at s d) slot e (decode_dir-FitsDirectory bytes) n.fits

  pub entries-FitsBlock : FitsBlock (encode_dir (set_entry (dir_at s d) slot e))
  entries-FitsBlock = encode_dir-FitsBlock (set_entry (dir_at s d) slot e) dir-FitsDirectory

  module _ (s' : FsState) (old : IsListing s role d)
      (written : s'.image.block d ≡ encode_dir (set_entry (dir_at s d) slot e)) where
    read_back : (k : ℕ) → SameDirent (dir_at s' d k) (set_entry (dir_at s d) slot e k)
    read_back k = rw written (decode-encode_dir (set_entry (dir_at s d) slot e) dir-FitsDirectory k)

    -- The entries as they are read afterwards.
    pub here : SameDirent (dir_at s' d slot) e
    here = rw (eq→== slot slot refl) at (read_back slot)

    pub elsewhere : (k : ℕ) → k ≢ slot → SameDirent (dir_at s' d k) (dir_at s d k)
    elsewhere k ne = rw (ne→== k slot ne) at (read_back k)

    pub named_here :
        (t : CString) → length t ≤ max_name_len → is_named t (dir_at s' d slot) ≡ is_named t e
    named_here t short = is_named-SameDirent t _ _ short here

    pub named_elsewhere :
        (t : CString) (k : ℕ)
        → length t ≤ max_name_len
        → k ≢ slot
        → is_named t (dir_at s' d k) ≡ is_named t (dir_at s d k)
    named_elsewhere t k short ne = is_named-SameDirent t _ _ short (elsewhere k ne)

    new_entered :
        (k : ℕ)
        → k < max_dir_entries
        → (dir_at s' d k).valid ≢ 0
        → (kind : Kind) × (role' (dir_at s' d k).inode ≡ node kind (under d k))
    new_entered k lt v = elim (Bool-cases (k == slot)) [
      | inl same ↦
          let v' : (dir_at s' d slot).valid ≢ 0 = rw (==→eq k slot same) at v in
          subst (λ j. (kind : Kind) × (role' (dir_at s' d j).inode ≡ node kind (under d j)))
            (sym (==→eq k slot same)) (entered_here v')
      | inr other ↦
          let ne = ==→ne k slot other in
          let v' : (dir_at s d k).valid ≢ 0 = rw (elsewhere k ne).0 at v in
          let (kind, h) = old.entered k lt v' in
          (kind, rw (elsewhere k ne).1 (n.others _ k kind ne v' h))
    ]
      where
        entered_here :
            (dir_at s' d slot).valid ≢ 0
            → (kind : Kind) × (role' (dir_at s' d slot).inode ≡ node kind (under d slot))
        entered_here v =
            let v' : e.valid ≢ 0 = rw here.0 at v in
            let (kind, h) = n.target v' in (kind, rw here.1 h)

    new_unique :
        (j k : ℕ)
        → j < max_dir_entries
        → k < max_dir_entries
        → j ≢ k
        → (t : CString) → IsToken t
        → length t ≤ max_name_len
        → is_named t (dir_at s' d j) ≡ true
        → is_named t (dir_at s' d k) ≡ false
    new_unique j k lj lk ne t token short named = elim (Bool-cases (j == slot)) [
      | inl e ↦
          let same = ==→eq j slot e in
          let k_other : k ≢ slot = omega arith in
          named_elsewhere t k short k_other
          ∙ n.alone k lk k_other t token short (sym (named_here t short) ∙ (rw same at named))
      | inr other ↦
          let j_other = ==→ne j slot other in
          let j_named = sym (named_elsewhere t j short j_other) ∙ named in
          elim (Bool-cases (k == slot)) [
            | inl e ↦
                rw (==→eq k slot e)
                  (named_here t short ∙ not_new t token short j lj j_other j_named)
            | inr else ↦
                let k_other = ==→ne k slot else in
                named_elsewhere t k short k_other ∙ old.unique j k lj lk ne t token short j_named
          ]
    ]
      where
        not_new :
            (t : CString)
            → IsToken t
            → length t ≤ max_name_len
            → (j : ℕ) → j < max_dir_entries
            → j ≢ slot
            → is_named t (dir_at s d j) ≡ true
            → is_named t e ≡ false
        not_new t token short j lj ne named = elim (Bool-cases (is_named t e)) [
          | inl both ↦ let none_named = n.alone j lj ne t token short both in cc
          | inr only ↦ only
        ]

    -- The block of entries is in order again.
    pub set-IsListing : IsListing s' role' d
    set-IsListing = record {
      entered = new_entered;
      ends = λ k. elim (Bool-cases (k == slot)) [
        | inl e ↦ rw (==→eq k slot e) (here.2 max_name_len (omega arith) ∙ n.ends)
        | inr other ↦ (elsewhere k (==→ne k slot other)).2 max_name_len (omega arith) ∙ old.ends k
      ];
      unique = new_unique;
    }
