-- ===== src/Bitmap/Tests.antt =====
-- A disk of 20 blocks, the map in block 3; the first five are in use.
use operating_system.Common.{◌≡◌, subst, arith, ◌==◌, if◌then◌else◌}
use operating_system.Bitmap.{Fs, balloc, balloc_page}
use operating_system.Bitmap.Place.{used, IsApart}
use operating_system.Bitmap.Alloc.{Ends, balloc_lem}
use operating_system.Bitmap.PageAlloc.{PageEnds, balloc_page_lem}
use operating_system.Bitmap.ByteSearch.{map_byte, IsOutside}

abbrev small : Fs
small = record {
  size = 20;
  bmapstart = 3;
  block = λ n j. if n == 3 then if j == 0 then 31 else 0 else 7;
}

small-IsApart : IsApart small
small-IsApart x y lt lt' free at =
    let three : x ≡ 3 = omega arith in
    let digit : used small 3 ≡ 0 = subst (λ z. used small z ≡ 0) three free in
    absurd (omega (arith, digit))

small-IsOutside : IsOutside small
small-IsOutside x i lt al free eight at =
    let first : x ≡ 0 = omega arith in
    let byte : map_byte small 0 ≡ 0 = subst (λ z. map_byte small z ≡ 0) first free in
    absurd (omega (arith, byte))

balloc_lem_example : Ends small (balloc small)
balloc_lem_example = balloc_lem small small-IsApart

balloc_page_lem_example : PageEnds small (balloc_page small)
balloc_page_lem_example = balloc_page_lem small small-IsOutside (omega arith)
