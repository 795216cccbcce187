-- ===== src/Rtmp/Tests.antt =====
-- rtmp_chunk_write of lib_src/transport/rns_rtmp.c on a chunk of format 0.
mod Amf
mod Connection
mod Replies
mod Commands
mod Media
use yclib.Base.{ℕ, ◌≡◌, ◌≤◌, ◌<◌, some, List, [], ◌∷◌, arith}
use yclib.Network.{htob24, htol32}
use yclib.Rtmp.Chunk.{Chunk, chunk_write}
use yclib.Rtmp.Chunk.Layout.{chunk_write-layout}

abbrev command : Chunk
command = record { fmt = 0; channel = 3; timestamp = 0; msglen = 300; msgtype = 20; streamid = 1 }

abbrev header : List ℕ
header = 3 ∷ 0 ∷ 0 ∷ 0 ∷ 0 ∷ 1 ∷ 44 ∷ 20 ∷ 1 ∷ 0 ∷ 0 ∷ 0 ∷ []

chunk_write-layout_example :
    (12 ≤ 100 → chunk_write 9 command 100 ≡ some (12, header))
    × (100 < 12 → (out : List ℕ) × (chunk_write 9 command 100 ≡ some (0, out)))
unfolding htob24 htol32
chunk_write-layout_example =
    chunk_write-layout 9 command 100 (omega arith) (omega arith) (omega arith)
