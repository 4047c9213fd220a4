-- ===== src/Tests/Bitmap.antt =====
-- utils/bitvec.c at the byte 0b00000101.
use chisai_fs.Base.{ℕ, ◌*◌, ◌≡◌, refl, some, [], ◌∷◌, arith}
use chisai_fs.Bitvec.{Bitvec, bitvec_count_zeros, bitvec_find_first_set}
use chisai_fs.Bitvec.Byte.{zeros}
use chisai_fs.Bitvec.Laws.{IsValid, bit_at}
use chisai_fs.Bitvec.Search.{FirstClear, bitvec_find_first_set-FirstClear, bitvec_count_zeros-zeros}

abbrev five : Bitvec
five = record { size = 1; inner = 5 ∷ [] }

five-IsValid : IsValid five
five-IsValid = record { sized = refl; bytes = (omega arith, tt) }

bitvec_find_first_set-FirstClear_example :
    (r : ℕ) × (bitvec_find_first_set five ≡ some r) × FirstClear (8 * five.size) (bit_at five) r
bitvec_find_first_set-FirstClear_example = bitvec_find_first_set-FirstClear five five-IsValid

bitvec_count_zeros-zeros_example :
    bitvec_count_zeros five ≡ some (zeros (8 * five.size) (bit_at five))
bitvec_count_zeros-zeros_example = bitvec_count_zeros-zeros five five-IsValid
