-- ===== src/Consistency/Tokens.antt =====
-- The tokens that `parse` of homework.c makes of a C string are C strings.
use fuse_file_system.Prelude.{
  ℕ, zero, suc, ◌<◌, ◌≡◌, ◌≢◌, List, [], ◌∷◌, ◌++◌, ◌==◌, arith, length, get_or, take, subst, All,
  inl, inr, none, some, Bool-cases, Option-cases,
}
use fuse_file_system.Paths.{
  CString, slash, max_name_len, max_path_len, skip_slashes, until_slash, after_slash, strtok,
  parse_loop, parse,
}
use mathlib.Core.Option.{some-injective}
use fuse_file_system.Paths.Parse.{All-last}
use fuse_file_system.Rename.Names.{IsToken}

abbrev pub IsByte : ℕ → Type 0
IsByte c = (0 < c) × (c < 256)

-- What a caller can pass as a path: bytes up to the NUL.
abbrev pub IsBytes : CString → Type 0
IsBytes = All IsByte

skip-IsBytes : (s : CString) → IsBytes s → IsBytes (skip_slashes s)
unfolding skip_slashes
skip-IsBytes [] h = tt
skip-IsBytes (c ∷ cs) (hc, h) = elim (Bool-cases (c == slash)) [
  | inl e ↦ rw e (skip-IsBytes cs h)
  | inr e ↦ rw e (hc, h)
]

until-IsBytes : (s : CString) → IsBytes s → IsBytes (until_slash s)
unfolding until_slash
until-IsBytes [] h = tt
until-IsBytes (c ∷ cs) (hc, h) = elim (Bool-cases (c == slash)) [
  | inl e ↦ rw e tt
  | inr e ↦ rw e (hc, until-IsBytes cs h)
]

after-IsBytes : (s : CString) → IsBytes s → IsBytes (after_slash s)
unfolding after_slash
after-IsBytes [] h = tt
after-IsBytes (c ∷ cs) (hc, h) = elim (Bool-cases (c == slash)) [
  | inl e ↦ rw e h
  | inr e ↦ rw e (after-IsBytes cs h)
]

take-IsBytes : (n : ℕ) (s : CString) → IsBytes s → IsBytes (take n s)
take-IsBytes zero s h = tt
take-IsBytes (suc n) [] h = tt
take-IsBytes (suc n) (c ∷ cs) (hc, h) = (hc, take-IsBytes n cs h)

strtok-IsBytes :
    (s : CString)
    → IsBytes s
    → (r : CString × CString) → strtok s ≡ some r
    → IsBytes r.0 × IsBytes r.1
unfolding strtok
strtok-IsBytes s h r e = pieces (skip_slashes s) (skip-IsBytes s h) r e
  where
    pieces :
        (u : CString)
        → IsBytes u
        → (q : CString × CString)
        → (elim u [ [] ↦ none | c ∷ cs ↦ some (until_slash (c ∷ cs), after_slash (c ∷ cs)) ])
          ≡ some q
        → IsBytes q.0 × IsBytes q.1
    pieces [] hu q eq = cc
    pieces (c ∷ cs) hu q eq =
        subst (λ q. IsBytes q.0 × IsBytes q.1) (some-injective _ _ eq)
          (until-IsBytes (c ∷ cs) hu, after-IsBytes (c ∷ cs) hu)

parse_loop-IsBytes : (k : ℕ) (s : CString) → IsBytes s → All IsBytes (parse_loop k s)
unfolding parse_loop
parse_loop-IsBytes zero s h = tt
parse_loop-IsBytes (suc k) s h = elim (Option-cases (strtok s)) [
  | inl e ↦ rw (e, parse_loop) tt
  | inr ((t, rest), e) ↦
      let (ht, hr) = strtok-IsBytes s h (t, rest) e in
      rw (e, parse_loop) (take-IsBytes max_name_len t ht, parse_loop-IsBytes k rest hr)
]

pub IsBytes-IsToken : (t : CString) → IsBytes t → IsToken t
IsBytes-IsToken t h = record { bytes = λ i. below t i h; no_nul = λ i lt. above t i h lt }
  where
    below : (t : CString) (i : ℕ) → IsBytes t → get_or t i 0 < 256
    below [] i h = omega arith
    below (c ∷ cs) zero (hc, h) = hc.1
    below (c ∷ cs) (suc i) (hc, h) = below cs i h

    above : (t : CString) (i : ℕ) → IsBytes t → i < length t → get_or t i 0 ≢ 0
    above [] i h lt = absurd (omega arith)
    above (c ∷ cs) zero (hc, h) lt = omega (arith, hc.0)
    above (c ∷ cs) (suc i) (hc, h) lt = above cs i h (omega arith)

-- The last name of a path is a C string.
pub last-IsToken :
    (path : CString) (ts : List CString) (t : CString)
    → IsBytes path
    → parse path ≡ ts ++ t ∷ []
    → IsToken t
unfolding parse
last-IsToken path ts t h e =
    IsBytes-IsToken t (All-last IsBytes ts t (rw e at (parse_loop-IsBytes max_path_len path h)))
