-- ===== src/Consistency/Change.antt =====
-- A change of a consistent volume: what has to be shown of a new state and of the new roles, so that
-- the rest of the volume need not be looked at again.
use fuse_file_system.Prelude.{
  ℕ, ◌<◌, ◌≡◌, ◌≢◌, ◌⊎◌, inl, inr, refl, ap, sym, ◌∙◌, true, false, not, arith, ◌==◌, ==→eq, ==→ne,
  Bool-cases,
}
use fuse_file_system.Layout.{decode_super}
use fuse_file_system.Layout.RoundTrip.{FitsBlock}
use fuse_file_system.State.{FsState}
use fuse_file_system.Bitmap.Bits.{used}
use fuse_file_system.Volume.{IsVolume}
use fuse_file_system.Consistency.{
  Kind, plain, folder, Place, under, Role, reserved, node, listing, content, is_spare, IsFolder,
  IsPlain, IsListing, IsConsistent,
}
use fuse_file_system.Consistency.Frame.{IsFolder-frame, IsPlain-frame, IsListing-frame}

-- A block that a step looks at anew: the one it rewrites, or one that had no role.
abbrev pub Anew : (ℕ → Role) → ℕ → ℕ → Type 0
Anew role x b = (b ≡ x) ⊎ (is_spare (role b) ≡ true)

-- Blocks keep their roles or lose them, and no block that still has its role has changed, but for
-- the bitmap and for `x`.
pub record IsChange (s s' : FsState) (role role' : ℕ → Role) (x : ℕ) : Type 0 where
  pub volume : IsVolume s'
  pub superblock : s'.superblock ≡ s.superblock
  pub not_super : x ≢ 0
  pub bytes : (b : ℕ) → b < s'.superblock.disk_size → FitsBlock (s'.image.block b)
  pub format : (b : ℕ) → b < 3 → role' b ≡ role b
  pub in_range : (b : ℕ) → is_spare (role' b) ≡ false → b < s'.superblock.disk_size
  pub in_use : (b : ℕ) → b < s'.superblock.disk_size → used s'.bitmap b ≡ not (is_spare (role' b))
  pub old : (b : ℕ) → is_spare (role b) ≡ false → is_spare (role' b) ≡ false → role' b ≡ role b
  pub same :
      (b : ℕ)
      → is_spare (role b) ≡ false
      → is_spare (role' b) ≡ false
      → b ≢ 1
      → b ≢ x
      → s'.image.block b ≡ s.image.block b
  pub keeps_listing :
      (b i : ℕ) → role b ≡ listing i → is_spare (role' i) ≡ false → i ≢ x → role' b ≡ listing i
  pub keeps_content :
      (b i k : ℕ)
      → role b ≡ content i k
      → is_spare (role' i) ≡ false
      → i ≢ x
      → role' b ≡ content i k
  pub keeps_node :
      (b e k : ℕ) (kind : Kind)
      → role b ≡ node kind (under e k)
      → is_spare (role' e) ≡ false
      → e ≢ x
      → role' b ≡ node kind (under e k)
  pub folders :
      (i : ℕ) {place : Place} → Anew role x i → role' i ≡ node folder place → IsFolder s' role' i
  pub plains :
      (i : ℕ) {place : Place} → Anew role x i → role' i ≡ node plain place → IsPlain s' role' i
  pub listings : (e : ℕ) {inum : ℕ} → Anew role x e → role' e ≡ listing inum → IsListing s' role' e

module _ {s s' : FsState} {role role' : ℕ → Role} {x : ℕ} (c : IsConsistent s role)
    (g : IsChange s s' role role' x) where
  new_or_old : (b : ℕ) → is_spare (role' b) ≡ false → Anew role x b ⊎ ((role b ≡ role' b) × (b ≢ x))
  new_or_old b live = elim (Bool-cases (b == x)) [
    | inl e ↦ inl (inl (==→eq b x e))
    | inr ne ↦ elim (Bool-cases (is_spare (role b))) [
      | inl free ↦ inl (inr free)
      | inr taken ↦ inr (sym (g.old b taken live), ==→ne b x ne)
    ]
  ]

  -- The bitmap's block has its role.
  not_bitmap : (b : ℕ) {r : Role} → role' b ≡ r → r ≢ reserved → b ≢ 1
  not_bitmap b h ne e =
      let at_one : role' 1 ≡ reserved = g.format 1 (omega arith) ∙ c.bitmap in ne (cc)

  unchanged :
      (b : ℕ) {r : Role}
      → role b ≡ r
      → role' b ≡ r
      → is_spare r ≡ false
      → r ≢ reserved
      → b ≢ x
      → s'.image.block b ≡ s.image.block b
  unchanged b h h' live other ne = g.same b (rw h live) (rw h' live) (not_bitmap b h' other) ne

  super_block : s'.image.block 0 ≡ s.image.block 0
  super_block =
      let at_zero : role' 0 ≡ reserved = g.format 0 (omega arith) ∙ c.super in
      g.same 0 (rw c.super refl) (rw at_zero refl) (λ e. omega arith) (λ e. g.not_super (sym e))

  -- The volume is consistent again.
  pub IsChange-IsConsistent : IsConsistent s' role'
  IsChange-IsConsistent = record {
    volume = g.volume;
    label = ap decode_super super_block ∙ c.label ∙ sym g.superblock;
    bytes = g.bytes;
    super = g.format 0 (omega arith) ∙ c.super;
    bitmap = g.format 1 (omega arith) ∙ c.bitmap;
    root = g.format 2 (omega arith) ∙ c.root;
    in_range = g.in_range;
    in_use = g.in_use;
    folders = λ i {place} h. elim (new_or_old i (rw h refl)) [
      | inl new ↦ g.folders i new h
      | inr (stays, ne) ↦
          IsFolder-frame i (unchanged i (stays ∙ h) h refl (λ e. cc) ne)
            (λ b l. g.keeps_listing b i l (rw h refl) ne) (c.folders i (stays ∙ h))
    ];
    plains = λ i {place} h. elim (new_or_old i (rw h refl)) [
      | inl new ↦ g.plains i new h
      | inr (stays, ne) ↦
          IsPlain-frame i (unchanged i (stays ∙ h) h refl (λ e. cc) ne)
            (λ b k l. g.keeps_content b i k l (rw h refl) ne) (c.plains i (stays ∙ h))
    ];
    listings = λ e {inum} h. elim (new_or_old e (rw h refl)) [
      | inl new ↦ g.listings e new h
      | inr (stays, ne) ↦
          IsListing-frame e (unchanged e (stays ∙ h) h refl (λ q. cc) ne)
            (λ b k kind v l. g.keeps_node b e k kind l (rw h refl) ne) (c.listings e (stays ∙ h))
    ];
  }
