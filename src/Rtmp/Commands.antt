-- ===== src/Rtmp/Commands.antt =====
-- lib_src/transport/rns_rtmp.c, rtmp_command_parse and those of the rtmp_command_ functions that read
-- script data, answer, and set fields of the connection or of the server.
pub mod Serving
use yclib.Base.{
  ℕ, zero, suc, ◌+◌, ◌-◌, ◌^◌, Bool, true, false, ◌&&◌, Option, none, some, List, [], ◌∷◌, ◌==◌,
  if◌then◌else◌, u32, length, drop,
}
use yclib.Rtmp.Amf.{
  Value, Pointee, value, null_pointer, dbl, ui8, str, obj, ecma, Site, ui8_site, dbl_site, str_site,
  obj_site, Outcome, made, null, fault, out_of_fuel, ui8_read, dbl_read, str_read, value_read,
  obj_read,
}
use yclib.Rtmp.Connection.{Conn, Ret, done, failed}
use yclib.Rtmp.Building.{codes}
use yclib.Rtmp.Replies.{resp_create_stream, resp_get_stream_length}

-- The connection, with the fields of `rns_rconn_t` that commands set, and `sindex` of the server.
-- A double is the eight bytes of its representation.
pub record Peer : Type 0 where
  pub conn : Conn
  pub sindex : ℕ
  pub netstream : ℕ
  pub playseek : List ℕ
  pub rvideo : ℕ
  pub raudio : ℕ
  pub pause : ℕ
  pub ptime : List ℕ

-- What a command comes to: the bytes that it takes and the connection, an access that C leaves
-- undefined, or a read that needs more fuel.
pub data Handled : Type 0 where
  finished : ℕ → Peer → Handled
  undefined unfinished : Handled

abbrev pub Command : Type 0
Command = Peer → List ℕ → Handled

-- `walker = bytes ? end : buf`
abbrev pub missing : ℕ → List ℕ → ℕ
missing bytes buf = if bytes == 0 then 0 else length buf

-- A read within a command that has `buf` before it
abbrev pub read {ℓ} : {A : Type ℓ} → Peer → List ℕ → Outcome A → (A → ℕ → Handled) → Handled
read p buf (made a bytes) next = next a bytes
read p buf (null bytes) next = finished (missing bytes buf) p
read p buf fault next = undefined
read p buf out_of_fuel next = unfinished

-- The functions sd_dbl_value and sd_ui8_value on what a value points to; anything else than they take
-- is read out of place.
abbrev pub dbl_value : Pointee → (List ℕ → Handled) → Handled
dbl_value (dbl bytes) next = next bytes
dbl_value _ next = undefined

abbrev pub ui8_value : Pointee → (ℕ → Handled) → Handled
ui8_value (ui8 b) next = next b
ui8_value _ next = undefined

abbrev pub pointee : Value → Pointee
pointee (value type p) = p

-- Goes on with a reply that is sent, or that is not.
abbrev pub replied : Peer → Option (Ret × Conn) → (Ret → Peer → Handled) → Handled
replied p none next = undefined
replied p (some (ret, c)) next = next ret (record p { conn = c })

-- `rns_strncmp` with the length of the name that the peer has sent gives 0.
abbrev pub same_name : List ℕ → List ℕ → Bool
same_name [] text = true
same_name (zero ∷ name) [] = true
same_name (suc _ ∷ name) [] = false
same_name (a ∷ name) (b ∷ text) = a == b && same_name name text

-- The first command of the chain whose name is the same
abbrev pub named : List ℕ → List (List ℕ × Command) → Option Command
named name [] = none
named name ((text, command) ∷ commands) =
    if same_name name text then some command else named name commands

abbrev pub null_byte : Peer → List ℕ → List ℕ → (List ℕ → Handled) → Handled
null_byte p buf [] next = finished 0 p
null_byte p buf (b ∷ walker) next = if b == 5 then next walker else finished (length buf) p

unfoldable pub command_play2 : Command
command_play2 p buf = finished 0 p

-- `f` is the fuel of each read.
module _ (mem : Site → ℕ → Bool) (f : ℕ) where
  -- `walker += 1` in front of a read, which is told a size of 2 ^ 32 - 1 behind the end.
  abbrev pub skip : Site → Peer → List ℕ → List ℕ → (List ℕ → Handled) → Handled
  skip site p buf [] next = if mem site (2 ^ 32 - 1) then undefined else finished (length buf) p
  skip site p buf (b ∷ walker) next = next walker

  -- What most commands begin with: their number and a null. `next` gets the bytes of both.
  abbrev pub with_id : Peer → List ℕ → (Value → ℕ → List ℕ → Handled) → Handled
  with_id p buf next =
      read p buf (value_read mem f buf)
        λ id bytes. null_byte p buf (drop bytes buf) λ walker. next id (bytes + 1) walker

  unfoldable pub command_call : Command
  unfolding value_read obj_read
  command_call p buf = read p buf (value_read mem f buf) λ id bytes.
      skip obj_site p buf (drop bytes buf) λ walker.
        read p buf (obj_read mem f walker) λ object more.
          skip obj_site p buf (drop more walker) λ behind.
            read p buf (obj_read mem f behind)
              λ args last. dbl_value (pointee id) λ tid. finished (bytes + 1 + more + 1 + last) p

  unfoldable pub command_release_stream : Command
  unfolding value_read
  command_release_stream p buf =
      with_id p buf λ id bytes walker.
        read p buf (value_read mem f walker) λ name more. finished (bytes + more) p

  unfoldable pub command_checkbw : Command
  unfolding value_read
  command_checkbw p buf = with_id p buf λ id bytes walker. finished bytes p

  unfoldable pub command_receive_audio : Command
  unfolding value_read ui8_read
  command_receive_audio p buf = with_id p buf λ id bytes walker.
      skip ui8_site p buf walker λ behind.
        read p buf (ui8_read mem behind)
          λ flag more. ui8_value flag λ b. finished (bytes + 1 + more) (record p { raudio = b })

  unfoldable pub command_receive_video : Command
  unfolding value_read ui8_read
  command_receive_video p buf = with_id p buf λ id bytes walker.
      skip ui8_site p buf walker λ behind.
        read p buf (ui8_read mem behind)
          λ flag more. ui8_value flag λ b. finished (bytes + 1 + more) (record p { rvideo = b })

  unfoldable pub command_seek : Command
  unfolding value_read dbl_read
  command_seek p buf = with_id p buf λ id bytes walker. skip dbl_site p buf walker λ behind.
      read p buf (dbl_read mem behind) λ playseek more.
        dbl_value playseek λ d. finished (bytes + 1 + more) (record p { playseek = d })

  unfoldable pub command_pause : Command
  unfolding value_read ui8_read dbl_read
  command_pause p buf = with_id p buf λ id bytes walker. skip ui8_site p buf walker λ behind.
      read p buf (ui8_read mem behind) λ flag more. skip dbl_site p buf (drop more behind) λ rest.
        read p buf (dbl_read mem rest) λ time last. ui8_value flag λ b.
          dbl_value time
            λ d. finished (bytes + 1 + more + 1 + last) (record p { pause = b; ptime = d })

-- `double` is the representation of a number, and `to_u32` the conversion of one back.
module _ (mem : Site → ℕ → Bool) (f : ℕ) (double : ℕ → List ℕ) (to_u32 : List ℕ → ℕ) where
  unfoldable pub command_create_stream : Command
  unfolding value_read resp_create_stream
  command_create_stream p buf = with_id mem f p buf λ id bytes walker.
      let n = u32 (p.sindex + 1) in
      let q = record p { sindex = n; netstream = n } in
      dbl_value (pointee id) λ tid.
        replied q (resp_create_stream double tid true n q.conn)
          λ ret r. elim ret [ done ↦ finished bytes r | failed k ↦ finished (length buf) r ]

  unfoldable pub command_get_stream_length : Command
  unfolding value_read resp_get_stream_length
  command_get_stream_length p buf = with_id mem f p buf λ id bytes walker.
      read p buf (value_read mem f walker) λ name more. dbl_value (pointee id) λ tid.
        replied p (resp_get_stream_length double (to_u32 tid) 10 p.conn)
          λ ret q. finished (bytes + more) q

-- The commands that start and end streams of the server
pub record Streams : Type 0 where
  pub connect : Command
  pub play : Command
  pub delete_stream : Command
  pub close_stream : Command
  pub publish : Command

-- A command that takes no bytes leaves the whole message for later.
abbrev pub taken : ℕ → Handled → Handled
taken bytes (finished zero p) = finished 0 p
taken bytes (finished (suc n) p) = finished (bytes + suc n) p
taken bytes r = r

abbrev pub run_found : Peer → Option Command → ℕ → List ℕ → Handled
run_found p none bytes walker = finished 0 p
run_found p (some command) bytes walker = taken bytes (command p walker)

module _ (mem : Site → ℕ → Bool) (f : ℕ) (double : ℕ → List ℕ) (to_u32 : List ℕ → ℕ)
    (streams : Streams) where
  -- The chain of comparisons, in its order
  abbrev pub commands : List (List ℕ × Command)
  commands =
      (codes "connect", streams.connect)
      ∷ (codes "call", command_call mem f)
      ∷ (codes "close", λ p buf. finished 0 p)
      ∷ (codes "releaseStream", command_release_stream mem f)
      ∷ (codes "FCPublish", command_release_stream mem f)
      ∷ (codes "createStream", command_create_stream mem f double to_u32)
      ∷ (codes "getStreamLength", command_get_stream_length mem f double to_u32)
      ∷ (codes "_checkbw", command_checkbw mem f)
      ∷ (codes "play", streams.play)
      ∷ (codes "play2", command_play2)
      ∷ (codes "deleteStream", streams.delete_stream)
      ∷ (codes "closeStream", streams.close_stream)
      ∷ (codes "receiveAudio", command_receive_audio mem f)
      ∷ (codes "receiveVideo", command_receive_video mem f)
      ∷ (codes "publish", streams.publish)
      ∷ (codes "seek", command_seek mem f)
      ∷ (codes "pause", command_pause mem f)
      ∷ []

  -- with the name that has been read, in front of `walker`
  abbrev pub run_named : Peer → List ℕ → List ℕ → Outcome (List ℕ) → Handled
  run_named p buf walker (made name bytes) =
      run_found p (named name commands) (1 + bytes) (drop bytes walker)
  run_named p buf walker (null bytes) = finished (length buf) p
  run_named p buf walker fault = undefined
  run_named p buf walker out_of_fuel = unfinished

  unfoldable pub command_parse : Command
  unfolding str_read command_call command_release_stream command_create_stream
      command_get_stream_length command_checkbw command_play2 command_receive_audio
      command_receive_video command_seek command_pause
  command_parse p buf =
      skip mem f str_site p buf buf λ walker. run_named p buf walker (str_read mem walker)
