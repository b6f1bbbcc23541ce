-- ===== src/Engine/Buffer/Examples.antt =====
-- The buffers on concrete data.
use lundicpp.Base.{◌≡◌, ◌↔◌, true, refl, [], ◌∷◌, List, codes, some, length}
use lundicpp.Engine.Buffer.{empty_buffer, append, consume, contents, empty, find_terminator}
use lundicpp.Engine.Buffer.Laws.{
  Holds, Call, appended, filled, written, ensured, pushed, consumed, cleared, run_all, meant_all,
  run_all-refines,
}

abbrev calls : List Call
calls =
    appended (codes "GET /")
    ∷ pushed 32
    ∷ ensured 9
    ∷ written (codes "a ")
    ∷ filled (codes "HTTP/1.1\r\n\r\n")
    ∷ consumed 4
    ∷ cleared
    ∷ appended (codes "POST")
    ∷ consumed 1
    ∷ []

run_all-refines_example :
    Holds (run_all calls (empty_buffer 4)) (meant_all calls [])
    × ((empty (run_all calls (empty_buffer 4)) ≡ true) ↔ (meant_all calls [] ≡ []))
run_all-refines_example = run_all-refines 4 calls

grown_twice : length (append (codes "abcdef") (append (codes "ab") (empty_buffer 1))).bytes ≡ 8
unfolding append empty_buffer
grown_twice = refl

consumed_front : contents (consume 2 (append (codes "abcdef") (empty_buffer 4))) ≡ codes "cdef"
unfolding consume append empty_buffer
consumed_front = refl

terminator : find_terminator (append (codes "A: b\r\n\r\nxyz") (empty_buffer 4)) ≡ some 8
unfolding find_terminator append empty_buffer
terminator = refl
