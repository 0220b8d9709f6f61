-- ===== src/Launch.antt =====
-- `block_init` of misc.c and `main` of hwfuse.c: what is served, and when the program exits before.
-- `fuse_opt_parse` and `open` are parameters; what FUSE does with the operations is Requests.
pub mod Images
use fuse_file_system.Prelude.{
  ℕ, zero, suc, ◌-◌, Bool, false, not, ◌||◌, Option, none, some, List, [], ◌∷◌, if◌then◌else◌, ltb,
  length,
}
use fuse_file_system.Paths.{CString}
use fuse_file_system.Rename.{same_token}

-- How the program goes on: it exits with a status, it reads through `NULL`, or it hands an opened image
-- and the arguments that are left to `fuse_main`.
pub data Launched : Type 0 where
  exits : (status : ℕ) → Launched
  crashes : Launched
  serves : (image : CString) (args : List CString) → Launched

-- `s + n`
abbrev pub drop : ℕ → CString → CString
drop zero s = s
drop (suc n) [] = []
drop (suc n) (c ∷ s) = drop n s

abbrev pub dot_img : CString
dot_img = b'.' ∷ b'i' ∷ b'm' ∷ b'g' ∷ []

-- Whether the image is opened; otherwise the program exits with status 1.
unfoldable pub block_init : (opens : CString → Bool) → CString → Bool
block_init opens file =
    if ltb (length file) 4 || not (same_token (drop (length file - 4) file) dot_img)
    then false
    else opens file

-- The result of `fuse_opt_parse`: nothing when it returns -1, else `image_name`, which is `NULL`
-- without the option, and the arguments that are left.
abbrev pub Parsed : Type 0
Parsed = Option (Option CString × List CString)

unfoldable pub main : (opens : CString → Bool) → Parsed → Launched
main opens none = exits 1
main opens (some (none, args)) = crashes
main opens (some (some file, args)) = if block_init opens file then serves file args else exits 1
