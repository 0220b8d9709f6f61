-- ===== src/Tests/Serving.antt =====
-- `main` with the options "-image a.img".
use fuse_file_system.Prelude.{Bool, true, ◌≡◌, ◌↔◌, some, [], ◌∷◌}
use fuse_file_system.Paths.{CString}
use fuse_file_system.Launch.{serves, Parsed, main}
use fuse_file_system.Launch.Images.{IsImage, main-serves}

abbrev image : CString
image = b'a' ∷ b'.' ∷ b'i' ∷ b'm' ∷ b'g' ∷ []

abbrev directory : CString
directory = b'm' ∷ []

abbrev options : Parsed
options = some (some image, directory ∷ [])

abbrev can_open : CString → Bool
can_open file = true

main-serves_example :
    (main can_open options ≡ serves image (directory ∷ []))
    ↔ ((options ≡ some (some image, directory ∷ [])) × IsImage can_open image)
main-serves_example = main-serves can_open options image (directory ∷ [])
