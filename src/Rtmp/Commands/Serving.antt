-- ===== src/Rtmp/Commands/Serving.antt =====
-- Whole commands in rtmp_command_parse of lib_src/transport/rns_rtmp.c.
use yclib.Base.{
  ℕ, zero, suc, ◌+◌, ◌^◌, ◌<◌, ◌≤◌, ◌≡◌, refl, ap, sym, ◌∙◌, Bool, true, some, List, [], ◌∷◌, ◌++◌,
  arith, length, take, drop, u32, drop-append_length, length-take,
}
use yclib.Network.{htob16}
use yclib.Rtmp.Amf.{Value, value, dbl, Site, made, value_read}
use yclib.Rtmp.Amf.Encoding.{encode, encode_str, IsValue}
use yclib.Rtmp.Amf.Reading.{reverse_twice, value_Reads, str_read-encode}
use yclib.Rtmp.Chunk.{Chunk}
use yclib.Rtmp.Connection.{Conn, done, failed}
use yclib.Rtmp.Connection.Sending.{Separable}
use yclib.Rtmp.Incoming.{current}
use yclib.Rtmp.Building.{codes, result_name}
use yclib.Rtmp.Replies.{resp_create_stream}
use yclib.Rtmp.Replies.Writing.{encode_parts, Sends}
use yclib.Rtmp.Replies.Streams.{number_parts, resp_create_stream-Sends}
use yclib.Rtmp.Commands.{
  Peer, Handled, finished, replied, dbl_value, pointee, run_named, run_found, Command, same_name,
  named, with_id, command_create_stream, Streams, commands, taken, command_parse,
}

abbrev pub id_value : List ℕ → Value
id_value tid = value 0 (dbl tid)

length-id_value : (tid : List ℕ) → length tid ≡ 8 → length (encode (id_value tid)) ≡ 9
unfolding encode
length-id_value tid tid8 = ap suc (reverse_twice tid [] tid8).1

same_name_prefix : (n : ℕ) (text : List ℕ) → same_name (take n text) text ≡ true
same_name_prefix zero text = refl
same_name_prefix (suc n) [] = refl
same_name_prefix (suc n) (a ∷ text) = ground (arith, same_name_prefix n text)

module _ (mem : Site → ℕ → Bool) (allocates : (site : Site) (left : ℕ) → mem site left ≡ true) where
  -- The number of a command and the null behind it
  with_id_lem :
      (f : ℕ) (p : Peer) (tid rest : List ℕ) (next : Value → ℕ → List ℕ → Handled)
      → length tid ≡ 8
      → 45 ≤ f
      → with_id mem f p (encode (id_value tid) ++ 5 ∷ rest) next ≡ next (id_value tid) 10 rest
  unfolding IsValue
  with_id_lem f p tid rest next tid8 enough =
      let long : length (encode (id_value tid)) ≡ 9 = length-id_value tid tid8 in
      let reads : value_read mem f (encode (id_value tid) ++ 5 ∷ rest) ≡ made (id_value tid) 9 =
        value_Reads mem allocates (id_value tid) (refl, tid8) (5 ∷ rest) f (omega (arith, long))
          (omega (arith, long))
        ∙ ap (made (id_value tid)) long in
      let behind : drop 9 (encode (id_value tid) ++ 5 ∷ rest) ≡ 5 ∷ rest =
        ap (λ n. drop n (encode (id_value tid) ++ 5 ∷ rest)) (sym long)
        ∙ drop-append_length (encode (id_value tid)) (5 ∷ rest) in
      rw (reads, behind) refl

  command_create_stream_lem :
      (f : ℕ) (double : ℕ → List ℕ) (to_u32 : List ℕ → ℕ) (p : Peer) (c : Conn) (tid rest : List ℕ)
      → length tid ≡ 8
      → 45 ≤ f
      → let n = u32 (p.sindex + 1) in
        resp_create_stream double tid true n p.conn ≡ some (done, c)
        → command_create_stream mem f double to_u32 p (encode (id_value tid) ++ 5 ∷ rest)
          ≡ finished 10 (record p { conn = c; sindex = n; netstream = n })
  unfolding command_create_stream
  command_create_stream_lem f double to_u32 p c tid rest tid8 enough replies =
      let n = u32 (p.sindex + 1) in
      let q = record p { sindex = n; netstream = n } in
      let whole = encode (id_value tid) ++ 5 ∷ rest in
      let next : Value → ℕ → List ℕ → Handled = λ id bytes walker. dbl_value (pointee id) λ d.
        replied q (resp_create_stream double d true n q.conn)
          λ ret r. elim ret [ done ↦ finished bytes r | failed k ↦ finished (length whole) r ] in
      with_id_lem f p tid rest next tid8 enough
      ∙ ap
          (λ m.
            replied q m
              λ ret r. elim ret [ done ↦ finished 10 r | failed k ↦ finished (length whole) r ])
          replies

  -- A message whose name stands in the table
  command_parse-named :
      (f : ℕ) (double : ℕ → List ℕ) (to_u32 : List ℕ → ℕ) (streams : Streams) (p : Peer)
      (name walker : List ℕ) (b : ℕ) (command : Command)
      → length name < 2 ^ 16
      → named name (commands mem f double to_u32 streams) ≡ some command
      → command_parse mem f double to_u32 streams p (b ∷ (encode_str name ++ walker))
        ≡ taken (1 + length (encode_str name)) (command p walker)
  unfolding command_parse
  command_parse-named f double to_u32 streams p name walker b command small found =
      let reads = str_read-encode mem allocates name walker small in
      let behind = drop-append_length (encode_str name) walker in
      let buf = b ∷ (encode_str name ++ walker) in
      ap (run_named mem f double to_u32 streams p buf (encode_str name ++ walker)) reads
      ∙ ap
          (λ m.
            run_found p m (1 + length (encode_str name))
              (drop (length (encode_str name)) (encode_str name ++ walker)))
          found
      ∙ ap (λ w. taken (1 + length (encode_str name)) (command p w)) behind

-- A createStream command whose number is a double, where all allocations succeed, the fuel of a read is
-- at least 45, the chunk size is not 0 and the message is on a channel of 2 to 63, or on one below 320
-- where the answer fits one chunk: rtmp_command_parse takes the 25 bytes up to the null, counts a stream of the server and makes it the one of the
-- connection, and answers with its number in a message that the other side puts together.
pub command_parse-create_stream :
    (mem : Site → ℕ → Bool) (f : ℕ) (double : ℕ → List ℕ) (to_u32 : List ℕ → ℕ) (streams : Streams)
    (p : Peer) (chunk : Chunk) (tid rest : List ℕ)
    → ((site : Site) (left : ℕ) → mem site left ≡ true)
    → 45 ≤ f
    → length tid ≡ 8
    → let n = u32 (p.sindex + 1) in
      length (double n) ≡ 8
      → p.conn.memory ≡ []
      → 0 < p.conn.ochunksize
      → current p.conn ≡ some chunk
      → chunk.channel < 320
      → Separable chunk.channel p.conn.ochunksize
          (length (encode_parts (number_parts (result_name true) tid (double n))))
      → (c : Conn) × (command_parse mem f double to_u32 streams p
            (2 ∷ (encode_str (codes "createStream") ++ (encode (id_value tid) ++ 5 ∷ rest)))
          ≡ finished 25 (record p { conn = c; sindex = n; netstream = n }))
        × Sends chunk.channel chunk.streamid
            (encode_parts (number_parts (result_name true) tid (double n)))
            p.conn
            (some (done, c))
unfolding htob16
command_parse-create_stream mem f double to_u32 streams p chunk tid rest allocates enough tid8 n8
      calm some_size found small apart =
    let n = u32 (p.sindex + 1) in
    let (pieces, runs, joined) =
      resp_create_stream-Sends double tid true n p.conn chunk tid8 n8 calm some_size found small
        apart in
    (
      _,
      command_parse-named mem allocates f double to_u32 streams p (codes "createStream")
            (encode (id_value tid) ++ 5 ∷ rest) 2 (command_create_stream mem f double to_u32)
            (omega arith) refl
          ∙ ap (taken 15) (
              command_create_stream_lem mem allocates f double to_u32 p _ tid rest tid8 enough
                runs),
      (pieces, refl, joined),
    )

-- Every name that is the beginning of "connect", the empty one too, runs the command connect.
pub command_parse-connect_prefix :
    (mem : Site → ℕ → Bool) (f : ℕ) (double : ℕ → List ℕ) (to_u32 : List ℕ → ℕ) (streams : Streams)
    (p : Peer) (n : ℕ) (walker : List ℕ)
    → ((site : Site) (left : ℕ) → mem site left ≡ true)
    → n ≤ 7
    → command_parse mem f double to_u32 streams p
        (2 ∷ (encode_str (take n (codes "connect")) ++ walker))
      ≡ taken (n + 3) (streams.connect p walker)
unfolding htob16
command_parse-connect_prefix mem f double to_u32 streams p n walker allocates short =
    let name = take n (codes "connect") in
    let long : length name ≡ n = length-take n (codes "connect") (omega arith) in
    let first : named name (commands mem f double to_u32 streams) ≡ some streams.connect =
      rw (same_name_prefix n (codes "connect")) refl in
    command_parse-named mem allocates f double to_u32 streams p name walker 2 streams.connect
      (omega (arith, long)) first
    ∙ ap (λ k. taken k (streams.connect p walker)) (omega (arith, long))
