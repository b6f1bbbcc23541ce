-- ===== src/Engine/Scan/Examples.antt =====
-- The scan on concrete data.
use lundicpp.Base.{◌≡◌, refl, arith, codes, Bytes}
use lundicpp.Engine.Scan.{find_header_end, find_header_end_scalar}
use lundicpp.Engine.Scan.First.{
  IsFirstEnd, IsScanned, find_header_end-IsFirstEnd, find_header_end-scalar,
}

-- The terminator stands across byte 23, and 23 bytes were there before.
abbrev split_request : Bytes
split_request = codes "GET / HTTP/1.1\r\nHost: x\r\n\r\nbody"

found_across : find_header_end split_request 24 ≡ 27
unfolding find_header_end
found_across = refl

short_data : find_header_end (codes "\r\n") 0 ≡ 0
unfolding find_header_end
short_data = refl

find_header_end-scalar_example :
    find_header_end split_request 24 ≡ find_header_end_scalar split_request 24
find_header_end-scalar_example = find_header_end-scalar split_request 24

nothing-IsScanned : IsScanned split_request 3
nothing-IsScanned q h = absurd (omega arith)

find_header_end-IsFirstEnd_example : IsFirstEnd split_request 0 (find_header_end split_request 3)
find_header_end-IsFirstEnd_example = find_header_end-IsFirstEnd split_request 3 nothing-IsScanned
