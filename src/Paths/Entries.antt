-- ===== src/Paths/Entries.antt =====
-- The searches of a directory block in homework.c, and the names of its entries.
use fuse_file_system.Prelude.{
  ℕ, zero, suc, ◌+◌, ◌≤◌, ◌<◌, ◌≡◌, ◌≢◌, ◌↔◌, refl, ap, Bool, true, false, none, some, [], ◌∷◌,
  arith, ◌==◌, ==→eq, ==→ne, ne→==, length, get_or, inl, inr, Bool-cases,
}
use fuse_file_system.Layout.{Dirent, Directory}
use fuse_file_system.Layout.RoundTrip.{SameDirent}
use fuse_file_system.Paths.{CString, max_name_len, same_string, find_entry, is_named}

-- The bytes at `name` are those of `t` and a NUL.
pub record Holds (t : CString) (name : ℕ → ℕ) : Type 0 where
  pub bytes : (i : ℕ) → i < length t → name i ≡ get_or t i 0
  pub ends : name (length t) ≡ 0

Holds-cons :
    (c : ℕ) (t : CString) (name : ℕ → ℕ)
    → name 0 ≡ c
    → Holds t (λ k. name (suc k))
    → Holds (c ∷ t) name
Holds-cons c t name e rest = record { bytes = bytes; ends = rest.ends }
  where
    bytes : (i : ℕ) → i < suc (length t) → name i ≡ get_or (c ∷ t) i 0
    bytes zero lt = e
    bytes (suc i) lt = rest.bytes i (omega arith)

same_string→Holds : (t : CString) (name : ℕ → ℕ) → same_string t name ≡ true → Holds t name
unfolding same_string
same_string→Holds [] name h = record { bytes = λ i lt. absurd (omega arith); ends = ground arith }
same_string→Holds (c ∷ t) name h =
    Holds-cons c t name (ground arith) (same_string→Holds t (λ k. name (suc k)) (ground arith))

Holds→same_string : (t : CString) (name : ℕ → ℕ) → Holds t name → same_string t name ≡ true
unfolding same_string
Holds→same_string [] name h = ground (arith, h.ends)
Holds→same_string (c ∷ t) name h = ground (
  arith,
  h.bytes 0,
  Holds→same_string t (λ k. name (suc k))
      (record { bytes = λ i lt. h.bytes (suc i) (omega arith); ends = h.ends }),
)

-- `strcmp` finds two strings equal exactly when the bytes are those of the token and a NUL.
pub same_string_iff : (t : CString) (name : ℕ → ℕ) → (same_string t name ≡ true) ↔ Holds t name
same_string_iff t name = (same_string→Holds t name, Holds→same_string t name)

module _ (test : Dirent → Bool) (dir : Directory) where
  -- Entry `k` is the first that passes, among `rounds` entries from `i` on.
  pub record First (rounds i k : ℕ) : Type 0 where
    pub above : i ≤ k
    pub below : k < i + rounds
    pub passes : test (dir k) ≡ true
    pub before : (m : ℕ) → i ≤ m → m < k → test (dir m) ≡ false

  First_here : (rounds i k : ℕ) → test (dir i) ≡ true → i ≡ k → First (suc rounds) i k
  First_here rounds i k e same = record {
    above = omega arith;
    below = omega arith;
    passes = rw (← same) e;
    before = λ m lo hi. absurd (omega arith);
  }

  First_later :
      (rounds i k : ℕ) → test (dir i) ≡ false → First rounds (i + 1) k → First (suc rounds) i k
  First_later rounds i k e f = record {
    above = omega (arith, f.above);
    below = omega (arith, f.below);
    passes = f.passes;
    before = λ m lo hi. elim (Bool-cases (m == i)) [
      | inl here ↦ rw (==→eq m i here) e
      | inr other ↦ f.before m (omega (arith, ==→ne m i other)) hi
    ];
  }

  pub find_entry-First : (rounds i k : ℕ) → find_entry test dir rounds i ≡ some k → First rounds i k
  unfolding find_entry
  find_entry-First zero i k h = cc
  find_entry-First (suc rounds) i k h = elim (Bool-cases (test (dir i))) [
    | inl e ↦ let hit : some i ≡ some k = rw e at h in First_here rounds i k e (cc)
    | inr e ↦ First_later rounds i k e (find_entry-First rounds (i + 1) k (rw e at h))
  ]

  pub First-find_entry : (rounds i k : ℕ) → First rounds i k → find_entry test dir rounds i ≡ some k
  unfolding find_entry
  First-find_entry zero i k f = absurd (omega (arith, f.above, f.below))
  First-find_entry (suc rounds) i k f = elim (Bool-cases (i == k)) [
    | inl e ↦
        let same : i ≡ k = ==→eq i k e in
        let hit : test (dir i) ≡ true = rw same f.passes in rw hit (ap some same)
    | inr e ↦
        let later : i + 1 ≤ k = omega (arith, ==→ne i k e, f.above) in
        rw (f.before i (omega arith) (omega arith)) (
          First-find_entry rounds (i + 1) k (record {
            above = later;
            below = omega (arith, f.below);
            passes = f.passes;
            before = λ m lo hi. f.before m (omega arith) hi;
          }))
  ]

  -- No entry passes exactly when the search finds none.
  pub find_entry-none :
      (rounds i : ℕ)
      → ((m : ℕ) → i ≤ m → m < i + rounds → test (dir m) ≡ false)
      → find_entry test dir rounds i ≡ none
  unfolding find_entry
  find_entry-none zero i h = refl
  find_entry-none (suc rounds) i h =
      rw (h i (omega arith) (omega arith))
        (find_entry-none rounds (i + 1) (λ m lo hi. h m (omega arith) (omega arith)))

  -- Where the search finds none, no entry passes.
  pub none-find_entry :
      (rounds i : ℕ)
      → find_entry test dir rounds i ≡ none
      → (m : ℕ) → i ≤ m
      → m < i + rounds
      → test (dir m) ≡ false
  unfolding find_entry
  none-find_entry zero i h m lo hi = absurd (omega arith)
  none-find_entry (suc rounds) i h m lo hi = elim (Bool-cases (test (dir i))) [
    | inl e ↦ let hit : some i ≡ none = rw e at h in cc
    | inr e ↦ elim (Bool-cases (m == i)) [
      | inl here ↦ rw (==→eq m i here) e
      | inr later ↦
          none-find_entry rounds (i + 1) (rw e at h) m (omega (arith, ==→ne m i later))
            (omega arith)
    ]
  ]

same_string-agree :
    (t : CString) (f g : ℕ → ℕ)
    → ((i : ℕ) → i ≤ length t → f i ≡ g i)
    → same_string t f ≡ same_string t g
unfolding same_string
same_string-agree [] f g h = rw (h 0 (omega arith))
same_string-agree (c ∷ t) f g h = rw (
  h 0 (omega arith),
  same_string-agree t (λ k. f (suc k)) (λ k. g (suc k)) (λ i le. h (suc i) (omega arith)),
)

-- Entries that agree in their 28 bytes of name have the same name.
pub is_named-SameDirent :
    (t : CString) (e f : Dirent)
    → length t ≤ max_name_len
    → SameDirent e f
    → is_named t e ≡ is_named t f
unfolding is_named
is_named-SameDirent t e f short (v, n, same) =
    rw (v, same_string-agree t e.name f.name (λ i le. same i (omega arith)))

pub is_named_of_Holds :
    (t : CString) (e : Dirent) → e.valid ≢ 0 → Holds t e.name → is_named t e ≡ true
unfolding is_named
is_named_of_Holds t e v h = rw (ne→== e.valid 0 v, Holds→same_string t e.name h)

pub get_or_beyond : (t : CString) (i : ℕ) → length t ≤ i → get_or t i 0 ≡ 0
get_or_beyond [] i h = refl
get_or_beyond (c ∷ t) zero h = absurd (omega arith)
get_or_beyond (c ∷ t) (suc i) h = get_or_beyond t i (omega arith)

-- An entry that has a name is valid, and holds the name.
pub named-Holds : (t : CString) (e : Dirent) → is_named t e ≡ true → (e.valid ≢ 0) × Holds t e.name
unfolding is_named
named-Holds t e h = (ground arith, (same_string_iff t e.name).0 (ground arith))
