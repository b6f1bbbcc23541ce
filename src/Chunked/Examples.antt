-- ===== src/Chunked/Examples.antt =====
-- A stream of chunks, one of them empty.
use lundicpp.Base.{◌+◌, suc, ◌≡◌, Bytes, List, [], ◌∷◌, some, codes, length}
use lundicpp.Socket.{◌>>◌}
use lundicpp.Server.Delivery.{concat}
use lundicpp.Chunked.{new_writer}
use lundicpp.Chunked.Chunks.{read_chunks, write_all, finish_all, socket, write_all-read}

abbrev parts : List Bytes
parts = codes "first chunk, of some length" ∷ [] ∷ codes "x" ∷ []

write_all-read_example :
    (sent : List Bytes) × ((write_all parts >> finish_all 2 new_writer)
        (socket [] [] (length sent + 3))
      ≡ (some tt, socket [] sent 3))
    × (read_chunks (suc (length parts)) (concat sent) ≡ some (concat parts))
write_all-read_example = write_all-read parts 1 [] 3
