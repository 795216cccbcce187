-- ===== src/Rtmp/Amf/RoundTrip.antt =====
-- lib_src/transport/rns_rtmp.c: sd_value_write and sd_value_read together.
use yclib.Base.{
  ℕ, suc, ◌*◌, ◌^◌, ◌≤◌, ◌<◌, ◌≡◌, refl, Bool, true, none, some, List, ◌∷◌, ◌++◌, length, drop,
  lt→ltb,
}
use yclib.Network.{htob16}
use yclib.Network.Order.{btoh-htob}
use yclib.Rtmp.Amf.{Value, value, null_pointer, Site, made, str_read, value_read, value_write}
use yclib.Rtmp.Amf.Encoding.{encode, IsValue}
use yclib.Rtmp.Amf.Reading.{value_Reads, front16}
use yclib.Rtmp.Amf.Writing.{value_write-Stores}

-- A value whose pointer refers to what its type says, written to a buffer with room for it, is read
-- back from the bytes that were stored, whatever follows them, where all allocations succeed and
-- the fuel is five units for each byte; `*len` is the number of the bytes.
pub value_read-write :
    (mem : Site → ℕ → Bool) (v : Value) (buf rest : List ℕ) (f : ℕ)
    → ((site : Site) (left : ℕ) → mem site left ≡ true)
    → IsValue v
    → length (encode v) < 2 ^ 32
    → length (encode v) ≤ length buf
    → 5 * length (encode v) ≤ f
    → (bytes behind : List ℕ) × (value_write v buf ≡ some (bytes, behind))
      × (value_read mem f (bytes ++ rest) ≡ made v (length bytes))
value_read-write mem v buf rest f allocates good fits room enough = (
  encode v,
  drop (length (encode v)) buf,
  (value_write-Stores v good buf).0 room,
  value_Reads mem allocates v good rest f fits enough,
)

-- `sd_value_write` stores the encoding of such a value at the front of a buffer that has room for it,
-- and leaves the rest; it does not look at the room, so that in a shorter buffer it writes past the end.
pub value_write-encode :
    (v : Value) (buf : List ℕ)
    → IsValue v
    → (length (encode v) ≤ length buf
        → value_write v buf ≡ some (encode v, drop (length (encode v)) buf))
      × (length buf < length (encode v) → value_write v buf ≡ none)
value_write-encode v buf good = value_write-Stores v good buf

-- A text that is cut off is not reported as missing: `sd_value_read` makes a value without a text, and
-- has taken the byte of its type only.
pub value_read-short_str :
    (mem : Site → ℕ → Bool) (s : List ℕ) (len f : ℕ)
    → ((site : Site) (left : ℕ) → mem site left ≡ true)
    → len < 2 ^ 16
    → length s < len
    → value_read mem (suc (suc f)) (2 ∷ (htob16 len ++ s)) ≡ made (value 2 null_pointer) 1
unfolding value_read str_read
value_read-short_str mem s len f allocates small short =
    let (behind, long) = front16 len s in
    let reads = (btoh-htob len s).2 small in
    rw (allocates, allocates, long, reads, behind, lt→ltb (length s) len short) refl
