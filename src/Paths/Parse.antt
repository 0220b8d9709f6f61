-- ===== src/Paths/Parse.antt =====
-- `parse` of homework.c.
use fuse_file_system.Prelude.{
  ℕ, zero, suc, ◌≤◌, ◌<◌, ◌≡◌, refl, ap, ◌∙◌, false, some, List, [], ◌∷◌, ◌++◌, map, arith, length,
  take, has, All, inl, inr, Option-cases,
}
use mathlib.Core.List.{append-nil}
use fuse_file_system.State.{pure}
use fuse_file_system.Paths.{
  CString, slash, max_name_len, max_path_len, skip_slashes, until_slash, after_slash, strtok,
  parse_loop, parse, last_token,
}

-- A name in a path: not empty, and without a slash.
pub record IsName (t : CString) : Type 0 where
  pub not_empty : 0 < length t
  pub no_slash : has slash t ≡ false

-- The path that names the directories and the file of a list, from the root.
unfoldable pub print_path : List CString → CString
print_path [] = []
print_path (t ∷ ts) = slash ∷ (t ++ print_path ts)

until-append : (t rest : CString) → has slash t ≡ false → until_slash (t ++ slash ∷ rest) ≡ t
unfolding until_slash
until-append [] rest h = refl
until-append (c ∷ t) rest h = ground (arith, until-append t rest)

until_all : (t : CString) → has slash t ≡ false → until_slash t ≡ t
unfolding until_slash
until_all [] h = refl
until_all (c ∷ t) h = ground (arith, until_all t)

after-append : (t rest : CString) → has slash t ≡ false → after_slash (t ++ slash ∷ rest) ≡ rest
unfolding after_slash
after-append [] rest h = refl
after-append (c ∷ t) rest h = ground (arith, after-append t rest)

after_all : (t : CString) → has slash t ≡ false → after_slash t ≡ []
unfolding after_slash
after_all [] h = refl
after_all (c ∷ t) h = ground (arith, after_all t)

take_nil : (k : ℕ) → map (take max_name_len) (take {A = CString} k []) ≡ []
take_nil zero = refl
take_nil (suc k) = refl

parse_loop-slash : (k : ℕ) (s : CString) → parse_loop k (slash ∷ s) ≡ parse_loop k s
unfolding parse_loop strtok skip_slashes
parse_loop-slash zero s = refl
parse_loop-slash (suc k) s = refl

-- A name in front of a slash, or at the end, is one token.
strtok-append : (t rest : CString) → IsName t → strtok (t ++ slash ∷ rest) ≡ some (t, rest)
unfolding strtok skip_slashes
strtok-append [] rest h = absurd (omega (arith, h.not_empty))
strtok-append (c ∷ t) rest h =
    ground (arith, until-append (c ∷ t) rest h.no_slash, after-append (c ∷ t) rest h.no_slash)

strtok_all : (t : CString) → IsName t → strtok t ≡ some (t, [])
unfolding strtok skip_slashes
strtok_all [] h = absurd (omega (arith, h.not_empty))
strtok_all (c ∷ t) h = ground (arith, until_all (c ∷ t) h.no_slash, after_all (c ∷ t) h.no_slash)

length-take-le : {A : Type 0} (n : ℕ) (xs : List A) → length (take n xs) ≤ n
length-take-le zero xs = omega arith
length-take-le (suc n) [] = omega arith
length-take-le (suc n) (x ∷ xs) = omega (arith, length-take-le n xs)

cut : List CString → List CString
cut = map (take max_name_len)

parse_loop_step :
    (k : ℕ) (s : CString) {t rest : CString}
    → strtok s ≡ some (t, rest)
    → parse_loop (suc k) s ≡ take max_name_len t ∷ parse_loop k rest
unfolding parse_loop
parse_loop_step k s e = rw (e, parse_loop)

parse_loop-nil : (k : ℕ) → parse_loop k [] ≡ []
unfolding parse_loop strtok skip_slashes
parse_loop-nil zero = refl
parse_loop-nil (suc k) = refl

parse_loop-print_path :
    (k : ℕ) (ts : List CString) → All IsName ts → parse_loop k (print_path ts) ≡ cut (take k ts)
unfolding print_path cut
parse_loop-print_path zero ts h = unfold parse_loop in refl
parse_loop-print_path (suc k) [] h = parse_loop-nil (suc k)
parse_loop-print_path (suc k) (t ∷ []) (h, hs) = rw (
  parse_loop-slash (suc k),
  append-nil t,
  parse_loop_step k t (strtok_all t h),
  parse_loop-nil k,
  take_nil k,
)
parse_loop-print_path (suc k) (t ∷ u ∷ ts) (h, hs) =
    rw
      (
        parse_loop-slash (suc k),
        parse_loop_step k _ (strtok-append t (u ++ print_path ts) h),
        ← parse_loop-slash k,
      )
      (ap (λ xs. take max_name_len t ∷ xs) (parse_loop-print_path k (u ∷ ts) hs))

-- A path printed from names without slashes is parsed into the first ten of them, each cut to 27
-- bytes.
pub parse-print_path :
    (ts : List CString)
    → All IsName ts
    → parse (print_path ts) ≡ map (take max_name_len) (take max_path_len ts)
unfolding parse cut
parse-print_path ts h = parse_loop-print_path max_path_len ts h

pub take_all : {A : Type 0} (n : ℕ) (xs : List A) → length xs ≤ n → take n xs ≡ xs
take_all zero [] h = refl
take_all zero (x ∷ xs) h = absurd (omega arith)
take_all (suc n) [] h = refl
take_all (suc n) (x ∷ xs) h = ap (λ l. x ∷ l) (take_all n xs (omega arith))

map-take_short :
    (ts : List CString) → All (λ t. length t ≤ max_name_len) ts → map (take max_name_len) ts ≡ ts
map-take_short [] h = refl
map-take_short (t ∷ ts) (h, hs) = rw (take_all max_name_len t h, map-take_short ts hs)

-- Up to ten names of at most 27 bytes go through a path and back unchanged.
pub parse-print_short :
    (ts : List CString)
    → All IsName ts
    → All (λ t. length t ≤ max_name_len) ts
    → length ts ≤ max_path_len
    → parse (print_path ts) ≡ ts
parse-print_short ts names short few =
    parse-print_path ts names ∙ rw (take_all max_path_len ts few) (map-take_short ts short)

parse_loop-short : (k : ℕ) (s : CString) → All (λ t. length t ≤ max_name_len) (parse_loop k s)
unfolding parse_loop
parse_loop-short zero s = tt
parse_loop-short (suc k) s = elim (Option-cases (strtok s)) [
  | inl e ↦ rw (e, parse_loop) tt
  | inr ((t, rest), e) ↦ rw (e, parse_loop) (length-take-le max_name_len t, parse_loop-short k rest)
]

-- No name of a parsed path is longer than 27 bytes.
pub parse-short : (path : CString) → All (λ t. length t ≤ max_name_len) (parse path)
unfolding parse
parse-short path = parse_loop-short max_path_len path

-- The last of the names.
pub last_token-append : (ts : List CString) (t : CString) → last_token (ts ++ t ∷ []) ≡ pure t
last_token-append [] t = refl
last_token-append (x ∷ []) t = refl
last_token-append (x ∷ y ∷ ts) t = last_token-append (y ∷ ts) t

pub All-last {κ} : {A : Type 0} (P : A → Type κ) (xs : List A) (x : A) → All P (xs ++ x ∷ []) → P x
All-last P [] x h = h.0
All-last P (y ∷ xs) x h = All-last P xs x h.1

pub last-short :
    (path : CString) (ts : List CString) (t : CString)
    → parse path ≡ ts ++ t ∷ []
    → length t ≤ max_name_len
last-short path ts t e = All-last (λ t. length t ≤ max_name_len) ts t (rw e at (parse-short path))
