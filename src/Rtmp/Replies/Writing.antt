-- ===== src/Rtmp/Replies/Writing.antt =====
-- lib_src/transport/rns_rtmp.c, the rtmp_resp_ functions: how the values of a reply get to the other side.
use yclib.Base.{
  ℕ, zero, suc, ◌<◌, ◌≤◌, ◌≡◌, refl, ap, true, Option, none, some, List, [], ◌∷◌, ◌++◌, arith,
  length,
}
use yclib.Rtmp.Amf.{store, value_write}
use yclib.Rtmp.Amf.Encoding.{encode, IsValue}
use yclib.Rtmp.Amf.Writing.{Stores, store-Stores, after-Stores, value_write-Stores}
use yclib.Rtmp.Chunk.Layout.{layout}
use yclib.Rtmp.Connection.{Conn, Ret, Task, send, release, done, command_send}
use yclib.Rtmp.Connection.Sending.{sent, unchunk, Separable, with_tasks}
use yclib.Rtmp.Connection.Message.{data_send-unchunk, message_chunk}
use yclib.Rtmp.Replies.{Part, written, byte, write_parts, blank, send_reply}

-- The bytes of a reply
abbrev pub encode_parts : List Part → List ℕ
encode_parts [] = []
encode_parts (written v ∷ parts) = encode v ++ encode_parts parts
encode_parts (byte b ∷ parts) = (b ∷ []) ++ encode_parts parts

-- The values of a reply refer to what their types say.
unfoldable pub AreValues : List Part → Type 0
AreValues [] = Unit
AreValues (written v ∷ parts) = IsValue v × AreValues parts
AreValues (byte b ∷ parts) = AreValues parts

write_parts-Stores :
    (parts : List Part) → AreValues parts → Stores (write_parts parts) (encode_parts parts)
unfolding AreValues write_parts
write_parts-Stores [] good buf = (λ room. refl, λ short. absurd (omega arith))
write_parts-Stores (written v ∷ parts) good buf =
    after-Stores (value_write v) (write_parts parts) _ _ (value_write-Stores v good.0)
      (write_parts-Stores parts good.1) buf
write_parts-Stores (byte b ∷ parts) good buf =
    after-Stores (store (b ∷ [])) (write_parts parts) (b ∷ []) _ (store-Stores (b ∷ []))
      (write_parts-Stores parts good) buf

length-blank : (n : ℕ) → length (blank n) ≡ n
length-blank zero = refl
length-blank (suc n) = ap suc (length-blank n)

-- A message in the tasks of a connection: its header, the chunks, and the release of the buffer.
abbrev pub Sends : ℕ → ℕ → List ℕ → Conn → Option (Ret × Conn) → Type 0
Sends channel streamid message c result =
    (pieces : List Task) × (result
      ≡ some (
        done,
        with_tasks c (
            send (layout (message_chunk channel streamid 20 (length message))) true
            ∷ (pieces ++ release message ∷ [])),
      ))
    × (unchunk (suc (length message)) channel c.ochunksize (sent pieces) ≡ message)

pub send_reply-Sends :
    (channel streamid : ℕ) (parts : List Part) (c : Conn)
    → AreValues parts
    → c.memory ≡ []
    → 0 < c.ochunksize
    → channel < 320
    → Separable channel c.ochunksize (length (encode_parts parts))
    → (length (encode_parts parts) ≤ 1024
        → Sends channel streamid (encode_parts parts) c (send_reply channel streamid parts c))
      × (1024 < length (encode_parts parts) → send_reply channel streamid parts c ≡ none)
unfolding send_reply command_send
send_reply-Sends channel streamid parts c good calm some_size small apart =
    let stores = write_parts-Stores parts good (blank 1024) in
    let size = length-blank 1024 in
    let message = encode_parts parts in
    (
      λ fits.
          let (pieces, runs, joined) =
            data_send-unchunk (suc (length message)) channel streamid 20 message true c calm
              some_size small apart (omega arith) in
          let stored = stores.0 (omega (arith, size)) in
          (pieces, rw (send_reply, stored, command_send) runs, joined),
      λ long. rw (send_reply, stores.1 (omega (arith, size))) refl,
    )
