-- ===== src/Namespace/Frame.antt =====
-- The names in a directory that a step has not touched, and in a block of entries with one entry set.
use fuse_file_system.Prelude.{
  ℕ, ◌≤◌, ◌<◌, ◌≡◌, ◌≢◌, ◌∙◌, refl, sym, ap, true, false, none, some, List, arith, length, ◌==◌,
  ==→eq, ==→ne, if◌then◌else◌, inl, inr, Bool-cases, Option-cases,
}
use fuse_file_system.Layout.{Dirent, encode_dir, max_dir_entries}
use fuse_file_system.Layout.RoundTrip.{FitsBlock}
use fuse_file_system.State.{FsState}
use fuse_file_system.Paths.{CString, is_named, is_dir, find_entry, max_name_len}
use fuse_file_system.Paths.Entries.{
  First, First-find_entry, find_entry-First, none-find_entry, find_entry-none,
}
use fuse_file_system.Rename.Names.{IsToken}
use fuse_file_system.Directory.{set_entry}
use fuse_file_system.Directory.Place.{IsPlace}
use fuse_file_system.Volume.{inode_at, dir_at}
use fuse_file_system.Consistency.{
  Kind, plain, folder, Place, Role, node, listing, is_spare, IsNode, IsListing, IsConsistent,
}
use fuse_file_system.Consistency.Change.{IsChange}
use fuse_file_system.Consistency.Entries.{
  IsEntry, here, elsewhere, named_here, named_elsewhere, set-IsListing,
}
use fuse_file_system.Namespace.{Names, Agree, names_in, names_of}
use fuse_file_system.Namespace.Follow.{
  names_in_found, names_in_missing, names_of_folder, names_of_file,
}

-- A name stands for the entry that has it.
found_unique :
    {s : FsState} {role : ℕ → Role} {d : ℕ} (l : IsListing s role d) (u : CString) (k : ℕ)
    → IsToken u
    → length u ≤ max_name_len
    → k < max_dir_entries
    → is_named u (dir_at s d k) ≡ true
    → names_in (dir_at s d) u ≡ some (dir_at s d k).inode
found_unique {s} {d = d} l u k token short lt named = names_in_found (dir_at s d) u k (
    First-find_entry (is_named u) (dir_at s d) max_dir_entries 0 k (record {
      above = omega arith;
      below = omega arith;
      passes = named;
      before = λ m lo hi. l.unique k m lt (omega arith) (omega arith) u token short named;
    }))

module _ {s : FsState} {role role' : ℕ → Role} {d slot : ℕ} {e : Dirent}
    (bytes : FitsBlock (s.image.block d)) (n : IsEntry s role role' d slot e) (s' : FsState)
    (old : IsListing s role d)
    (written : s'.image.block d ≡ encode_dir (set_entry (dir_at s d) slot e)) (u : CString)
    (token : IsToken u) (short : length u ≤ max_name_len) where
  other_named :
      is_named u e ≡ false
      → (m : ℕ) → (m ≢ slot → is_named u (dir_at s d m) ≡ false)
      → is_named u (dir_at s' d m) ≡ false
  other_named not_new m not_old = elim (Bool-cases (m == slot)) [
    | inl at_slot ↦ rw (==→eq m slot at_slot) (named_here bytes n s' old written u short ∙ not_new)
    | inr other ↦
        let ne = ==→ne m slot other in
        named_elsewhere bytes n s' old written u m short ne ∙ not_old ne
  ]

  -- The first entry of the name is not the one that is set.
  still_first :
      is_named u e ≡ false
      → is_named u (dir_at s d slot) ≡ false
      → (k : ℕ) → First (is_named u) (dir_at s d) max_dir_entries 0 k
      → (k ≢ slot) × First (is_named u) (dir_at s' d) max_dir_entries 0 k
  still_first not_new not_old k f =
      let ne : k ≢ slot =
        λ same. let named : is_named u (dir_at s d slot) ≡ true = rw same at f.passes in cc in
      (
        ne,
        record {
          above = omega arith;
          below = f.below;
          passes = named_elsewhere bytes n s' old written u k short ne ∙ f.passes;
          before = λ m lo hi. other_named not_new m (λ other. f.before m lo hi);
        },
      )

  kept_names :
      is_named u e ≡ false
      → is_named u (dir_at s d slot) ≡ false
      → names_in (dir_at s' d) u ≡ names_in (dir_at s d) u
  kept_names not_new not_old =
      elim (Option-cases (find_entry (is_named u) (dir_at s d) max_dir_entries 0)) [
        | inl gone ↦
            names_in_missing (dir_at s' d) u (
              find_entry-none (is_named u) (dir_at s' d) max_dir_entries 0 (λ m lo hi.
                other_named not_new m (λ other.
                  none-find_entry (is_named u) (dir_at s d) max_dir_entries 0 gone m lo hi)))
            ∙ sym (names_in_missing (dir_at s d) u gone)
        | inr (k, found) ↦
            let (ne, first) =
              still_first not_new not_old k
                (find_entry-First (is_named u) (dir_at s d) max_dir_entries 0 k found) in
            names_in_found (dir_at s' d) u k
              (First-find_entry (is_named u) (dir_at s' d) max_dir_entries 0 k first)
            ∙ ap some (elsewhere bytes n s' old written k ne).1
            ∙ sym (names_in_found (dir_at s d) u k found)
      ]

  -- The names of a block of entries once an entry is set.
  pub set_names : names_in (dir_at s' d) u ≡ (
      if is_named u e
      then some e.inode
      else if is_named u (dir_at s d slot)
      then none
      else names_in (dir_at s d) u)
  set_names = elim (Bool-cases (is_named u e)) [
    | inl new ↦ rw new (
        found_unique (set-IsListing bytes n s' old written) u slot token short n.slot_below
          (named_here bytes n s' old written u short ∙ new)
        ∙ ap some (here bytes n s' old written).1)
    | inr not_new ↦ elim (Bool-cases (is_named u (dir_at s d slot))) [
      | inl gone ↦
          rw (not_new, gone)
            (names_in_missing (dir_at s' d) u (
              find_entry-none (is_named u) (dir_at s' d) max_dir_entries 0 (λ m lo hi.
                other_named not_new m (λ other.
                  old.unique slot m n.slot_below (omega arith) (λ q. other (sym q)) u token short
                    gone))))
      | inr not_old ↦ rw (not_new, not_old) (kept_names not_new not_old)
    ]
  ]

module _ {s s' : FsState} {role role' : ℕ → Role} {x : ℕ} (c : IsConsistent s role)
    (g : IsChange s s' role role' x) where
  -- An inode that keeps its role, and its block and entries, keeps its names.
  pub names_kept :
      (i : ℕ) (kind : Kind) {place : Place}
      → role i ≡ node kind place
      → is_spare (role' i) ≡ false
      → i ≢ x
      → (kind ≡ folder → (inode_at s i).ptrs 0 ≢ x)
      → (t : CString) → names_of s' i t ≡ names_of s i t
  names_kept i plain h live ne apart t =
      let same = g.same i (rw h refl) live (λ e. cc (c.bitmap, h, e)) ne in
      let file : is_dir (inode_at s i).mode ≡ false = ground (arith, (c.plains i h).regular) in
      let file' : is_dir (inode_at s' i).mode ≡ false = rw same file in
      names_of_file s' i t file' ∙ sym (names_of_file s i t file)
  names_kept i folder h live ne apart t =
      let f = c.folders i h in
      let same = g.same i (rw h refl) live (λ e. cc (c.bitmap, h, e)) ne in
      let l = (inode_at s i).ptrs 0 in
      let l_live : is_spare (role' l) ≡ false = rw (g.keeps_listing l i f.listed live ne) refl in
      let same_list =
        g.same l (rw f.listed refl) l_live (λ e. cc (c.bitmap, f.listed, e)) (apart refl) in
      let dir' : is_dir (inode_at s' i).mode ≡ true = rw same f.directory in
      names_of_folder s' i t dir'
      ∙ rw (same, same_list) refl
      ∙ sym (names_of_folder s i t f.directory)

  -- Other directories have other blocks of entries.
  pub others_kept :
      (d p i : ℕ) (kind : Kind) {place : Place}
      → x ≡ d
      → role d ≡ listing p
      → role i ≡ node kind place
      → is_spare (role' i) ≡ false
      → i ≢ p
      → (t : CString) → names_of s' i t ≡ names_of s i t
  others_kept d p i kind same listed h live ne t =
      names_kept i kind h live (λ e. cc (listed, h, e, same))
        (λ is_folder e.
          let dir : role i ≡ node folder _ = rw is_folder at h in
          let own = (c.folders i dir).listed in ne (cc (own, listed, e, same)))
        t

-- The directory of a path, once an entry of its block is set.
module _ {s s' : FsState} {role role' : ℕ → Role} {path t : CString} {ts : List CString}
    {p d slot : ℕ} {e : Dirent} (c : IsConsistent s role) (g : IsChange s s' role role' d)
    (h : IsPlace s path ts t p d) (listed : role d ≡ listing p) (live : is_spare (role' p) ≡ false)
    (n : IsEntry s role role' d slot e)
    (written : s'.image.block d ≡ encode_dir (set_entry (dir_at s d) slot e)) where
  parent-live : is_spare (role p) ≡ false
  parent-live = ground (arith, c.in_use p h.parent.below, h.parent.in_use)

  same_parent_block : s'.image.block p ≡ s.image.block p
  same_parent_block = g.same p parent-live live h.parent.not_bitmap h.parent.not_entries

  -- The names of the directory.
  pub set_names_of :
      (u : CString)
      → IsToken u
      → length u ≤ max_name_len
      → names_of s' p u ≡ (
          if is_named u e
          then some e.inode
          else if is_named u (dir_at s d slot)
          then none
          else names_of s p u)
  set_names_of u token short =
      let dir' : is_dir (inode_at s' p).mode ≡ true = rw same_parent_block h.directory in
      let before : names_of s p u ≡ names_in (dir_at s d) u =
        names_of_folder s p u h.directory ∙ rw h.pointer refl in
      names_of_folder s' p u dir'
      ∙ rw (same_parent_block, h.pointer, before)
          (set_names (c.bytes d h.below) n s' (c.listings d listed) written u token short)

  -- The names of every inode that keeps its role, where `names` is what is meant.
  pub set_names-Agree :
      (P : ℕ → Type 0) (names : Names)
      → ((i : ℕ) → P i → IsNode role i × (is_spare (role' i) ≡ false))
      → ((i : ℕ) (u : CString) → i ≢ p → names i u ≡ names_of s i u)
      → ((u : CString)
          → IsToken u
          → length u ≤ max_name_len
          → names p u ≡ (
              if is_named u e
              then some e.inode
              else if is_named u (dir_at s d slot)
              then none
              else names_of s p u))
      → Agree P names (names_of s')
  set_names-Agree P names nodes others here i q u token short = elim (Bool-cases (i == p)) [
    | inl same ↦
        let eq = ==→eq i p same in rw eq (set_names_of u token short ∙ sym (here u token short))
    | inr other ↦
        let ((kind, place, hi), alive) = nodes i q in
        let ne = ==→ne i p other in
        others_kept c g d p i kind refl listed hi alive ne u ∙ sym (others i u ne)
  ]
