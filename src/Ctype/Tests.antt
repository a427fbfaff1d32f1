-- ===== src/Ctype/Tests.antt =====
-- The theorems of ctype.c at concrete characters.
use scales_os.Prelude.{◌≡◌, refl, true, false}
use scales_os.Ctype.{isspace}

spaces : (isspace 11 ≡ true) × (isspace b'x' ≡ false)
unfolding isspace
spaces = (refl, refl)
