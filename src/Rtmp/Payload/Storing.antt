-- ===== src/Rtmp/Payload/Storing.antt =====
-- rtmp_msg_payload of lib_src/transport/rns_rtmp.c: what its inner loop stores.
use mathlib.Core.List.{append_assoc, append-nil}
use mathlib.Core.Path.{subst}
use yclib.Base.{
  allocated, rest_of, ℕ, zero, suc, ◌+◌, ◌-◌, ◌*◌, ◌%◌, ◌<◌, ◌≤◌, ◌≡◌, refl, ap, sym, ◌∙◌, true,
  false, ◌&&◌, some, none, List, [], ◌∷◌, ◌++◌, ltb, length, take, drop, arith, length-append,
  length-drop, length-take, drop-drop, take_add, take_all, Bool-cases, inl, inr,
}
use yclib.Rtmp.Incoming.{find}
use yclib.Rtmp.Media.{Blocks, block_size, aligned, smaller}
use yclib.Rtmp.Media.Sending.{Hold, aligned_parts, smaller_le}
use yclib.Rtmp.Payload.{MsgStream, Writing, block_at, copied, store_loop}
use yclib.Rtmp.Payload.Growing.{InHand, held-InHand, no_block, made-InHand, grown-Hold}

-- The stream stores the bytes `log`, and nothing else.
pub record Stores (stream : MsgStream) (log : List ℕ) : Type 0 where
  pub bytes_held : Hold stream.blocks log
  pub offset_is : stream.offset ≡ length log

-- For how many bytes there is room, in the last block and in those that the pool still hands out
abbrev pub free : MsgStream → ℕ
free stream = stream.pool * block_size + (block_size - stream.offset % block_size) % block_size

-- From `w` to `v`, `n` bytes of the input have gone into the message and the stream, whose messages and
-- players are the same.
pub record Wrote (log : List ℕ) (n : ℕ) (w v : Writing) : Type 0 where
  pub left_is : v.left ≡ drop n w.left
  pub msg_is : v.msg ≡ record w.msg { len = w.msg.len + n }
  pub conn_is : v.conn ≡ w.conn
  pub stores : Stores v.stream (log ++ take n w.left)
  pub msgs_kept : v.stream.msgs ≡ w.stream.msgs
  pub players_kept : v.stream.players ≡ w.stream.players
  pub free_is : free v.stream + n ≡ free w.stream
  pub videometa_kept : v.stream.videometa ≡ w.stream.videometa

smaller_minus : (a b n : ℕ) → smaller a b - n ≡ smaller (a - n) (b - n)
smaller_minus a b n = ground arith

-- What a round takes, with `content` in the block
abbrev piece : Writing → List ℕ → ℕ
piece w content =
    smaller (smaller (block_size - length content) (length w.left)) (w.msg.size - w.msg.len)

abbrev filled : Blocks → ℕ → Writing → Writing
filled blocks pool w = record w { stream = record w.stream { blocks = blocks; pool = pool } }

block_there :
    (offset : ℕ) (content : List ℕ) (w : Writing)
    → find offset w.stream.blocks ≡ some content
    → block_at offset w ≡ some (content, w)
block_there offset content w there = rw (block_at, there) refl

block_made :
    (offset more : ℕ) (w : Writing)
    → find offset w.stream.blocks ≡ none
    → w.conn.memory ≡ []
    → w.stream.pool ≡ suc more
    → block_at offset w ≡ some ([], filled (w.stream.blocks ++ (offset, []) ∷ []) more w)
block_made offset more w missing calm pool =
    let room : allocated w.conn.memory ≡ true = ap allocated calm in
    let quiet : rest_of w.conn.memory ≡ w.conn.memory = ap rest_of calm ∙ sym calm in
    let made = filled (w.stream.blocks ++ (offset, []) ∷ []) more w in
    rw (block_at, missing, room, pool)
      (ap (λ m. some ([], record made { conn = record w.conn { memory = m } })) quiet)

positive : (n : ℕ) → 0 < n → (m : ℕ) × (n ≡ suc m)
positive zero h = absurd (omega arith)
positive (suc m) h = (m, refl)

-- The block at the end of the log, there or made
record Ready (log : List ℕ) (w : Writing) (blocks : Blocks) (pool : ℕ) : Type 0 where
  block_is :
      block_at (aligned (length log)) w
      ≡ some (drop (aligned (length log)) log, filled blocks pool w)
  in_hand : InHand (aligned (length log)) blocks log
  pool_left : free w.stream ≡ pool * block_size + (block_size - length log % block_size)

block-Ready :
    (log : List ℕ) (n : ℕ) (w : Writing)
    → Stores w.stream log
    → w.conn.memory ≡ []
    → 0 < n
    → n ≤ free w.stream
    → (blocks : Blocks) × (pool : ℕ) × Ready log w blocks pool
block-Ready log n w stores calm some_bytes room =
    let held = stores.bytes_held in
    let offset_is = stores.offset_is in
    let (low, off, within) = aligned_parts (length log) in
    let base = aligned (length log) in
    elim (Bool-cases (ltb base (length log))) [
      | inl there ↦
          let hand = held-InHand w.stream.blocks log held (ground arith) in
          (
            w.stream.blocks,
            w.stream.pool,
            record {
              block_is = block_there base (drop base log) w hand.0;
              in_hand = hand;
              pool_left = ground (arith, offset_is, off);
            },
          )
      | inr ends ↦
          let even : base ≡ length log = ground arith in
          let (more, pool) = positive w.stream.pool (omega arith) in
          let v = filled (w.stream.blocks ++ (base, []) ∷ []) more w in
          let hand = made-InHand w.stream.blocks log held even in
          let empty : drop base log ≡ [] = (take_all base log (omega arith)).1 in
          (
            w.stream.blocks ++ (base, []) ∷ [],
            more,
            record {
              block_is =
                  block_made base more w (no_block w.stream.blocks log held even) calm pool
                  ∙ ap (λ t. some (t, v)) (sym empty);
              in_hand = hand;
              pool_left = omega (arith, pool, even, off, offset_is);
            },
          )
    ]

module _ (log : List ℕ) (n : ℕ) (w : Writing) (blocks : Blocks) (pool : ℕ)
    (ready : Ready log w blocks pool) (offset_is : w.stream.offset ≡ length log)
    (room : n ≤ free w.stream) (less : w.msg.len ≤ w.msg.size)
    (is : n ≡ smaller (length w.left) (w.msg.size - w.msg.len)) (some_bytes : 0 < n) where
  abbrev content : List ℕ
  content = drop (aligned (length log)) log

  abbrev after : Writing
  after = copied (aligned (length log)) (piece w content) content (filled blocks pool w)

  length-content : length content ≡ length log % block_size
  length-content =
      let (low, off, within) = aligned_parts (length log) in
      let rest = length-drop (aligned (length log)) log low in omega (arith, rest, off, low)

  -- A round takes what the block has room for, or all.
  piece_is : piece w content ≡ smaller (block_size - length log % block_size) n
  piece_is = rw length-content (ground arith)

  round_runs : (rounds : ℕ) → store_loop (suc rounds) w ≡ store_loop rounds after
  unfolding store_loop
  round_runs rounds =
      let goes : (ltb 0 (length w.left) && ltb w.msg.len w.msg.size) ≡ true = ground arith in
      let block : block_at (aligned w.stream.offset) w ≡ some (content, filled blocks pool w) =
        ap (λ m. block_at (aligned m) w) offset_is ∙ ready.block_is in
      rw (store_loop, goes, block)
        (ap
          (λ m.
            store_loop rounds (copied (aligned m) (piece w content) content (filled blocks pool w)))
          offset_is)

  piece_facts :
      let len = piece w content in
      (0 < len)
      × (len ≤ n)
      × (len ≤ length w.left)
      × (length log % block_size + len ≤ block_size)
      × (free after.stream + len ≡ free w.stream)
      × (w.msg.len + len ≤ w.msg.size)
  piece_facts =
      let (low, off, within) = aligned_parts (length log) in
      let m = smaller_le (block_size - length log % block_size) n in
      let k = smaller_le (length w.left) (w.msg.size - w.msg.len) in
      (
        omega (arith, piece_is, m.2 (omega arith) some_bytes),
        omega (arith, piece_is, m.1),
        omega (arith, piece_is, m.1, k.0, is),
        omega (arith, piece_is, m.0),
        omega (arith, ready.pool_left, piece_is, m.0, offset_is),
        omega (arith, piece_is, m.1, k.1, is),
      )

  after-Stores : Stores after.stream (log ++ take (piece w content) w.left)
  after-Stores =
      let len = piece w content in
      let bytes = take len w.left in
      let (some_len, most, there, fits, enough, within) = piece_facts in
      let long = length-take len w.left there in
      record {
        bytes_held =
            grown-Hold blocks log bytes ready.in_hand (omega (arith, long)) (omega (arith, long));
        offset_is = omega (arith, offset_is, long, length-append log bytes);
      }

  after_is : n - piece w content ≡ smaller (length after.left) (after.msg.size - after.msg.len)
  after_is =
      let len = piece w content in
      let (some_len, most, there, fits, enough, within) = piece_facts in
      let rest = length-drop len w.left there in
      let left : length w.left - len ≡ length (drop len w.left) = omega (arith, rest) in
      let size : w.msg.size - w.msg.len - len ≡ w.msg.size - (w.msg.len + len) = omega arith in
      ap (λ m. m - len) is
      ∙ smaller_minus (length w.left) (w.msg.size - w.msg.len) len
      ∙ ap (λ m. smaller m (w.msg.size - w.msg.len - len)) left
      ∙ ap (smaller (length (drop len w.left))) size

  after-Wrote :
      (v : Writing)
      → Wrote (log ++ take (piece w content) w.left) (n - piece w content) after v
      → Wrote log n w v
  after-Wrote v wrote =
      let len = piece w content in
      let (some_len, most, there, fits, enough, within) = piece_facts in
      let whole : len + (n - len) ≡ n = omega arith in
      record {
        left_is = wrote.left_is ∙ drop-drop len (n - len) w.left ∙ ap (λ m. drop m w.left) whole;
        msg_is = wrote.msg_is ∙ ap (λ m. record w.msg { len = m }) (omega (arith, whole));
        conn_is = wrote.conn_is;
        stores =
            subst (Stores v.stream)
              (append_assoc log (take len w.left) (take (n - len) (drop len w.left))
                ∙ ap (λ t. log ++ t) (sym (take_add len (n - len) w.left))
                ∙ ap (λ m. log ++ take m w.left) whole)
              wrote.stores;
        msgs_kept = wrote.msgs_kept;
        players_kept = wrote.players_kept;
        free_is = omega (arith, wrote.free_is, enough, whole);
        videometa_kept = wrote.videometa_kept;
      }

nothing-Wrote : (log : List ℕ) (w : Writing) → Stores w.stream log → Wrote log 0 w w
nothing-Wrote log w stores = record {
  left_is = refl;
  msg_is = ap (λ m. record w.msg { len = m }) (omega arith);
  conn_is = refl;
  stores = subst (Stores w.stream) (sym (append-nil log)) stores;
  msgs_kept = refl;
  players_kept = refl;
  free_is = omega arith;
  videometa_kept = refl;
}

-- With memory for all that is asked for, and blocks for the bytes, the inner loop takes what there is of
-- the message, and stores it behind what the stream has.
pub store_loop-Wrote :
    (rounds : ℕ) (log : List ℕ) (n : ℕ) (w : Writing)
    → Stores w.stream log
    → w.conn.memory ≡ []
    → w.msg.len ≤ w.msg.size
    → n ≡ smaller (length w.left) (w.msg.size - w.msg.len)
    → n ≤ free w.stream
    → n < rounds
    → (v : Writing) × (store_loop rounds w ≡ some v) × Wrote log n w v
unfolding store_loop
store_loop-Wrote zero log n w stores calm less is room enough = absurd (omega arith)
store_loop-Wrote (suc rounds) log zero w stores calm less is room enough =
    let ends : (ltb 0 (length w.left) && ltb w.msg.len w.msg.size) ≡ false = ground arith in
    (w, rw (store_loop, ends) refl, nothing-Wrote log w stores)
store_loop-Wrote (suc rounds) log (suc m) w stores calm less is room enough =
    let n = suc m in
    let some_bytes : 0 < n = omega arith in
    let (blocks, pool, ready) = block-Ready log n w stores calm some_bytes room in
    let offset_is = stores.offset_is in
    let (some_len, most, there, fits, left, within) =
      piece_facts log n w blocks pool ready offset_is room less is some_bytes in
    let next = after log n w blocks pool ready offset_is room less is some_bytes in
    let len = piece w (drop (aligned (length log)) log) in
    let (v, runs, wrote) =
      store_loop-Wrote rounds (log ++ take len w.left) (n - len) next
        (after-Stores log n w blocks pool ready offset_is room less is some_bytes) calm within
        (after_is log n w blocks pool ready offset_is room less is some_bytes)
        (omega (arith, left, room, most)) (omega arith) in
    (
      v,
      round_runs log n w blocks pool ready offset_is room less is some_bytes rounds ∙ runs,
      after-Wrote log n w blocks pool ready offset_is room less is some_bytes v wrote,
    )
