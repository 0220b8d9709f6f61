-- ===== src/Rename/Names.antt =====
-- The tokens that `fs_rename` of homework.c compares and copies.
use fuse_file_system.Prelude.{
  suc, false, ℕ, ◌≤◌, ◌<◌, ◌≡◌, ◌≢◌, refl, sym, ◌∙◌, true, List, [], ◌∷◌, ◌++◌, length, get_or,
  arith, ltb, lt→ltb, eq→==, Bool-cases, inl, inr, ==→eq,
}
use fuse_file_system.Paths.{CString, max_name_len, is_named}
use fuse_file_system.Paths.Entries.{Holds, get_or_beyond, named-Holds, is_named_of_Holds}
use fuse_file_system.Layout.{Dirent}
use fuse_file_system.Directory.{copy_name}
use fuse_file_system.Rename.{same_token, same_parent}

pub same_token_refl : (t : CString) → same_token t t ≡ true
same_token_refl [] = refl
same_token_refl (c ∷ t) = rw (eq→== c c refl) (same_token_refl t)

-- Two paths with the same directories have the same parent.
pub same_parent-append :
    (ts : List CString) (t t' : CString) → same_parent (ts ++ t ∷ []) (ts ++ t' ∷ []) ≡ true
unfolding same_parent
same_parent-append [] t t' = refl
same_parent-append (x ∷ []) t t' = rw (same_token_refl x) refl
same_parent-append (x ∷ y ∷ ts) t t' = rw (same_token_refl x) (same_parent-append (y ∷ ts) t t')

-- The test tells whether two tokens are the same.
pub same_token→eq : (s t : CString) → same_token s t ≡ true → s ≡ t
same_token→eq [] [] h = refl
same_token→eq [] (d ∷ t) h = cc
same_token→eq (c ∷ s) [] h = cc
same_token→eq (c ∷ s) (d ∷ t) h =
    let one : c ≡ d = ==→eq c d (ground arith) in
    let rest : s ≡ t = same_token→eq s t (ground arith) in rw (one, rest) refl

-- As many tokens that agree but for the last have the same directories.
pub same_parent→append :
    (ts : List CString) (t : CString) (us : List CString)
    → length us ≡ length (ts ++ t ∷ [])
    → same_parent (ts ++ t ∷ []) us ≡ true
    → (t' : CString) × (us ≡ ts ++ t' ∷ [])
unfolding same_parent
same_parent→append [] t [] e h = absurd (omega arith)
same_parent→append [] t (u ∷ []) e h = (u, refl)
same_parent→append [] t (u ∷ v ∷ us) e h = absurd (omega arith)
same_parent→append (x ∷ ts) t [] e h = absurd (omega arith)
same_parent→append (x ∷ []) t (u ∷ []) e h = absurd (omega arith)
same_parent→append (x ∷ y ∷ ts) t (u ∷ []) e h = absurd (omega arith)
same_parent→append (x ∷ []) t (u ∷ v ∷ us) e h =
    let first : x ≡ u = same_token→eq x u (ground arith) in
    let (t', rest) = same_parent→append [] t (v ∷ us) (omega arith) refl in (t', cc)
same_parent→append (x ∷ y ∷ ts) t (u ∷ v ∷ us) e h =
    let first : x ≡ u = same_token→eq x u (ground arith) in
    let (t', rest) = same_parent→append (y ∷ ts) t (v ∷ us) (omega arith) (ground arith) in (t', cc)

-- The bytes of a C string are not NUL, and its length is the token's.
pub record IsToken (t : CString) : Type 0 where
  pub bytes : (i : ℕ) → get_or t i 0 < 256
  pub no_nul : (i : ℕ) → i < length t → get_or t i 0 ≢ 0

-- A name that is copied over a cleared field is the token.
pub copy_name-Holds : (t : CString) → length t ≤ max_name_len → Holds t (copy_name (λ k. 0) t)
copy_name-Holds t short = record {
  bytes = λ i lt. rw (lt→ltb i max_name_len (omega arith));
  ends = elim (Bool-cases (ltb (length t) max_name_len)) [
    | inl e ↦ rw e (get_or_beyond t (length t) (omega arith))
    | inr e ↦ rw e
  ];
}

Holds-longer :
    (t t' : CString) (name : ℕ → ℕ)
    → IsToken t'
    → Holds t name
    → Holds t' name
    → length t' ≤ length t
Holds-longer t t' name k h h' = ground (arith, k.no_nul (length t), h'.bytes (length t), h.ends)

-- A name that holds two tokens tells that each name of the one holds the other.
pub Holds-same :
    (t t' : CString) (name old : ℕ → ℕ)
    → IsToken t
    → IsToken t'
    → Holds t name
    → Holds t' name
    → Holds t old
    → Holds t' old
Holds-same t t' name old k k' h h' o =
    let ge : length t' ≤ length t = Holds-longer t t' name k' h h' in
    let le : length t ≤ length t' = Holds-longer t' t name k h' h in
    record {
      bytes = λ i lt. o.bytes i (omega arith) ∙ sym (h.bytes i (omega arith)) ∙ h'.bytes i lt;
      ends = let e : length t' ≡ length t = omega arith in rw e o.ends;
    }

same_bytes :
    (s t : CString)
    → length s ≡ length t
    → ((i : ℕ) → i < length s → get_or s i 0 ≡ get_or t i 0)
    → s ≡ t
same_bytes [] [] e h = refl
same_bytes [] (d ∷ t) e h = absurd (omega arith)
same_bytes (c ∷ s) [] e h = absurd (omega arith)
same_bytes (c ∷ s) (d ∷ t) e h =
    let first : c ≡ d = h 0 (omega arith) in
    let rest : s ≡ t = same_bytes s t (omega arith) (λ i lt. h (suc i) (omega arith)) in cc

-- A name holds one token only.
pub Holds-eq :
    (s t : CString) (name : ℕ → ℕ) → IsToken s → IsToken t → Holds s name → Holds t name → s ≡ t
Holds-eq s t name k k' h h' =
    let ge : length t ≤ length s = Holds-longer s t name k' h h' in
    let le : length s ≤ length t = Holds-longer t s name k h' h in
    same_bytes s t (omega arith) (λ i lt. sym (h.bytes i lt) ∙ h'.bytes i (omega arith))

-- An entry that holds a token is named as the token is.
pub is_named-same_token :
    (t u : CString) (e : Dirent)
    → IsToken t
    → IsToken u
    → e.valid ≢ 0
    → Holds t e.name
    → is_named u e ≡ same_token u t
is_named-same_token t u e kt ku valid h = elim (Bool-cases (same_token u t)) [
  | inl same ↦
      let eq = same_token→eq u t same in rw (eq, same_token_refl t) (is_named_of_Holds t e valid h)
  | inr differ ↦ elim (Bool-cases (is_named u e)) [
    | inl named ↦
        let eq = Holds-eq u t e.name ku kt (named-Holds u e named).1 h in
        let same : same_token t t ≡ false = rw eq at differ in let same' = same_token_refl t in cc
    | inr other ↦ rw (other, differ) refl
  ]
]
