-- ===== src/Print/Tests.antt =====
-- Runs of printnum.
use li_nos.Base.{◌≡◌, refl, arith, [], ◌∷◌, some}
use li_nos.Print.{printnum}
use li_nos.Print.Round.{ReadsBack, strtol-printnum}

printnum_hex : printnum 256 255 16 4 32 ≡ some (32 ∷ 32 ∷ 102 ∷ 102 ∷ [])
unfolding printnum
printnum_hex = refl

strtol-printnum_example : ReadsBack (λ q. 7) 100 255 16 (printnum 256 255 16 4 32)
strtol-printnum_example =
    strtol-printnum (λ q. 7) 100 256 255 16 4 (omega arith) (omega arith) (omega arith)
      (omega arith)
