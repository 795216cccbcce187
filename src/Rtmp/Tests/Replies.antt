-- ===== src/Rtmp/Tests/Replies.antt =====
-- Replies of lib_src/transport/rns_rtmp.c at concrete inputs.
use yclib.Base.{ℕ, ◌≡◌, ◌≤◌, ◌<◌, refl, true, none, List, [], ◌∷◌, ◌++◌, arith, length}
use yclib.Network.{htob32}
use yclib.Rtmp.Chunk.{Chunk}
use yclib.Rtmp.Chunk.Layout.{layout}
use yclib.Rtmp.Connection.{Conn, chunk_fmt, send, control}
use yclib.Rtmp.Building.{codes}
use yclib.Rtmp.Replies.{resp_publish}
use yclib.Rtmp.Replies.Writing.{encode_parts}
use yclib.Rtmp.Replies.Publish.{status_parts, published, Queues, resp_publish-Queues}

-- The representation of 0
abbrev pub zero_double : ℕ → List ℕ
zero_double n = 0 ∷ 0 ∷ 0 ∷ 0 ∷ 0 ∷ 0 ∷ 0 ∷ 0 ∷ []

abbrev pub asking : Chunk
asking = record { fmt = 0; channel = 3; timestamp = 0; msglen = 25; msgtype = 20; streamid = 1 }

-- The connection that a command has come to on channel 3
abbrev pub asked : Conn
asked = record {
  state = chunk_fmt;
  curfmt = 0;
  curchunk = 3;
  curlen = 0;
  ichunksize = 128;
  ochunksize = 16;
  bw = 0;
  cs0 = 3;
  cs1 = [];
  cs2 = [];
  cbuf = [];
  chunkstreams = (3, asking) ∷ [];
  tasks = [];
  memory = [];
}

resp_publish-Queues_example :
    (length (codes "live") ≤ 896
      → Queues 5 1
          (encode_parts (status_parts (zero_double 4) (published (codes "live"))))
          (record asked {
            ochunksize = 1024;
            tasks = asked.tasks ++ send (layout (control 4 1) ++ htob32 1024) true ∷ [];
          })
          (resp_publish zero_double 4 (codes "live") asked))
    × (896 < length (codes "live") → resp_publish zero_double 4 (codes "live") asked ≡ none)
resp_publish-Queues_example =
    resp_publish-Queues zero_double 4 (codes "live") asked asking refl (omega arith) refl refl
