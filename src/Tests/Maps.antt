-- ===== src/Tests/Maps.antt =====
-- code/lib/bitmap.cc on small maps.
use my_nachos.Base.{◌≡◌, false, some, arith}
use my_nachos.Base.Checked.{◌>>=◌}
use my_nachos.Bitmap.{Bitmap, IsValid, zeroed, create, peek}
use my_nachos.Bitmap.Bit.{zeroed-IsValid}
use my_nachos.Bitmap.SelfTest.{self_test, create-self_test}

abbrev small_map : Bitmap
small_map = zeroed 40

small_map-IsValid : IsValid small_map
small_map-IsValid = zeroed-IsValid 40 (omega arith)

create-self_test_example :
    (b : Bitmap) × ((create 40 >>= self_test) ≡ some b)
    × IsValid b
    × (b.num_bits ≡ 40)
    × (peek b 33 ≡ false)
create-self_test_example = create-self_test 40 33 (omega arith) (omega arith)
