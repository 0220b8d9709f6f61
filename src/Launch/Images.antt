-- ===== src/Launch/Images.antt =====
-- Which images `main` of hwfuse.c serves.
use fuse_file_system.Prelude.{
  ℕ, zero, suc, ◌+◌, ◌-◌, ◌≡◌, ◌↔◌, ◌∙◌, refl, ap, Bool, true, none, some, List, [], ◌∷◌, ◌++◌,
  arith, inl, inr, Bool-cases, length, length-append, take,
}
use fuse_file_system.Paths.{CString}
use fuse_file_system.Rename.{same_token}
use fuse_file_system.Rename.Names.{same_token_refl, same_token→eq}
use fuse_file_system.Launch.{exits, serves, drop, dot_img, block_init, Parsed, main}

take-drop : (n : ℕ) (s : CString) → s ≡ take n s ++ drop n s
take-drop zero s = refl
take-drop (suc n) [] = refl
take-drop (suc n) (c ∷ s) = ap (λ l. c ∷ l) (take-drop n s)

drop-append : (s t : CString) → drop (length s) (s ++ t) ≡ t
drop-append [] t = refl
drop-append (c ∷ s) t = drop-append s t

-- An image file: a name that ends in ".img", and that can be opened.
pub record IsImage (opens : CString → Bool) (file : CString) : Type 0 where
  pub stem : CString
  pub named : file ≡ stem ++ dot_img
  pub readable : opens file ≡ true

module _ (opens : CString → Bool) (file : CString) where
  block_init→IsImage : block_init opens file ≡ true → IsImage opens file
  unfolding block_init
  block_init→IsImage h = record {
    stem = take (length file - 4) file;
    named =
        let last : drop (length file - 4) file ≡ dot_img = same_token→eq _ dot_img (ground arith) in
        take-drop (length file - 4) file ∙ ap (λ l. take (length file - 4) file ++ l) last;
    readable = ground arith;
  }

  IsImage→block_init : IsImage opens file → block_init opens file ≡ true
  unfolding block_init
  IsImage→block_init i =
      let size : length file ≡ length i.stem + 4 = rw i.named (length-append i.stem dot_img) in
      let cut : length file - 4 ≡ length i.stem = omega arith in
      let last : drop (length file - 4) file ≡ dot_img =
        rw cut (rw i.named (drop-append i.stem dot_img)) in
      let ends : same_token (drop (length file - 4) file) dot_img ≡ true =
        rw last (same_token_refl dot_img) in
      ground (arith, i.readable)

-- main hands the image and the arguments to FUSE exactly when the options name a file that ends in
-- ".img" and can be opened.
pub main-serves :
    (opens : CString → Bool) (options : Parsed) (file : CString) (args : List CString)
    → (main opens options ≡ serves file args)
      ↔ ((options ≡ some (some file, args)) × IsImage opens file)
unfolding main
main-serves opens none file args = ((λ h. cc), λ h. cc (h.0))
main-serves opens (some (none, rest)) file args = ((λ h. cc), λ h. cc (h.0))
main-serves opens (some (some name, rest)) file args = (there, back)
  where
    there :
        main opens (some (some name, rest)) ≡ serves file args
        → (◌≡◌ {A = Parsed} (some (some name, rest)) (some (some file, args))) × IsImage opens file
    there h = elim (Bool-cases (block_init opens name)) [
      | inl ok ↦
          let served : serves name rest ≡ serves file args = rw ok at h in
          let same : name ≡ file = cc in (cc, rw same at (block_init→IsImage opens name ok))
      | inr no_image ↦ let gone : exits 1 ≡ serves file args = rw no_image at h in cc
    ]

    back :
        (◌≡◌ {A = Parsed} (some (some name, rest)) (some (some file, args))) × IsImage opens file
        → main opens (some (some name, rest)) ≡ serves file args
    back (e, image) =
        let same : name ≡ file = cc in
        let same_rest : rest ≡ args = cc in
        rw (same, same_rest, IsImage→block_init opens file image) refl
