-- ===== src/Rtmp/Connection/Sending.antt =====
-- rtmp_data_send of lib_src/transport/rns_rtmp.c: how a message is cut into chunks.
use mathlib.Core.List.{append_assoc, append-nil}
use yclib.Base.{
  ℕ, zero, suc, ◌+◌, ◌-◌, ◌%◌, ◌<◌, ◌≤◌, ◌≡◌, ◌⊎◌, refl, ap, sym, ◌∙◌, Bool, true, false, Option,
  none, some, List, [], ◌∷◌, ◌++◌, ◌==◌, if◌then◌else◌, ltb, length, take, drop, arith, length-take,
  length-drop, take_all, take-append-drop, take-append_length, drop-append_length, nonempty,
  Bool-cases, inl, inr, eq_of_check,
}
use yclib.Rtmp.Connection.{Conn, Task, send, release, done, separator, send_loop, attach_buffer}

-- The bytes that the tasks of a queue send.
abbrev pub sent : List Task → List ℕ
sent [] = []
sent (send bytes clean ∷ tasks) = bytes ++ sent tasks
sent (release bytes ∷ tasks) = sent tasks

-- What stands behind the header of a chunk that goes on with the message of the channel, one of 2 to 63:
-- one byte, with the format 3 in its upper bits
abbrev behind_next : ℕ → List ℕ → Option (List ℕ)
behind_next channel [] = none
behind_next channel (b ∷ bytes) = if b == 192 + channel then some bytes else none

-- How the other side puts a message together: `size` bytes, then such a header, and so on; it stops where
-- there is none.
abbrev pub unchunk : ℕ → ℕ → ℕ → List ℕ → List ℕ
unchunk zero channel size bytes = []
unchunk (suc fuel) channel size bytes =
    take size bytes ++ elim (behind_next channel (drop size bytes)) [
      | none ↦ []
      | some more ↦ unchunk fuel channel size more
    ]

unchunk-nil : (fuel channel size : ℕ) → unchunk fuel channel size [] ≡ []
unchunk-nil zero channel size = refl
unchunk-nil (suc fuel) channel zero = refl
unchunk-nil (suc fuel) channel (suc size) = refl

unchunk_first :
    (fuel channel : ℕ) (first rest : List ℕ)
    → unchunk (suc fuel) channel (length first) (first ++ (192 + channel) ∷ rest)
      ≡ first ++ unchunk fuel channel (length first) rest
unchunk_first fuel channel first rest =
    let same : (192 + channel == 192 + channel) ≡ true = ground arith in
    rw
      (
        take-append_length first ((192 + channel) ∷ rest),
        drop-append_length first ((192 + channel) ∷ rest),
        same,
      )
      refl

-- A full chunk and the header behind it
pub unchunk-full :
    (fuel channel size head : ℕ) (first rest : List ℕ)
    → 0 < fuel
    → length first ≡ size
    → head ≡ 192 + channel
    → unchunk fuel channel size (first ++ head ∷ rest)
      ≡ first ++ unchunk (fuel - 1) channel size rest
unchunk-full zero channel size head first rest some_fuel full is = absurd (omega arith)
unchunk-full (suc fuel) channel size head first rest some_fuel full is =
    let less : suc fuel - 1 ≡ fuel = omega arith in
    ap (λ m. unchunk (suc fuel) channel m (first ++ head ∷ rest)) (sym full)
    ∙ ap (λ h. unchunk (suc fuel) channel (length first) (first ++ h ∷ rest)) is
    ∙ unchunk_first fuel channel first rest
    ∙ ap (λ m. first ++ unchunk fuel channel m rest) full
    ∙ ap (λ k. first ++ unchunk k channel size rest) (sym less)

-- What fits one chunk
pub unchunk-last :
    (fuel channel size : ℕ) (bytes : List ℕ)
    → 0 < fuel
    → length bytes ≤ size
    → unchunk fuel channel size bytes ≡ bytes
unchunk-last zero channel size bytes some_fuel fits = absurd (omega arith)
unchunk-last (suc fuel) channel size bytes some_fuel fits =
    let whole = take_all size bytes fits in rw (whole.0, whole.1) (append-nil bytes)

abbrev pub queued : List ℕ → Bool → Conn → Conn
queued bytes clean c = record c { tasks = c.tasks ++ send bytes clean ∷ [] }

pub attach_buffer-queued :
    (bytes : List ℕ) (clean : Bool) (c : Conn)
    → c.memory ≡ []
    → attach_buffer bytes clean c ≡ (done, queued bytes clean c)
unfolding attach_buffer
attach_buffer-queued bytes clean c calm = rw (attach_buffer, calm) refl

-- The byte between two chunks is that header.
pub separator_is : (chunkid : ℕ) → chunkid < 64 → separator chunkid ≡ 192 + chunkid
separator_is chunkid low =
    let same : chunkid % 64 ≡ chunkid = omega arith in
    ap separator (sym same)
    ∙ eq_of_check (λ y. separator (y % 64)) (λ y. 192 + y % 64) chunkid refl (omega arith)
    ∙ ap (λ y. 192 + y) same

module _ (rounds chunkid : ℕ) (b : ℕ) (buf : List ℕ) (c : Conn) (calm : c.memory ≡ []) where
  last_round :
      length (b ∷ buf) ≤ c.ochunksize
      → send_loop (suc rounds) chunkid (b ∷ buf) c ≡ some (done, queued (b ∷ buf) false c)
  unfolding send_loop
  last_round fits = elim (Bool-cases (ltb (length (b ∷ buf)) c.ochunksize)) [
    | inl short ↦
        let whole = take_all (length (b ∷ buf)) (b ∷ buf) (omega arith) in
        rw (send_loop, short, whole.0, attach_buffer-queued (b ∷ buf) false c calm, whole.1) refl
    | inr exact ↦
        let whole = take_all c.ochunksize (b ∷ buf) fits in
        rw (send_loop, exact, whole.0, attach_buffer-queued (b ∷ buf) false c calm, whole.1) refl
  ]

  full_round :
      (e : ℕ) (more : List ℕ)
      → c.ochunksize < length (b ∷ buf)
      → drop c.ochunksize (b ∷ buf) ≡ e ∷ more
      → send_loop (suc rounds) chunkid (b ∷ buf) c
        ≡ send_loop rounds chunkid
            (e ∷ more)
            (queued (separator chunkid ∷ []) true (queued (take c.ochunksize (b ∷ buf)) false c))
  unfolding send_loop
  full_round e more long left =
      let enough : ltb (length (b ∷ buf)) c.ochunksize ≡ false = ground arith in
      let first = attach_buffer-queued (take c.ochunksize (b ∷ buf)) false c calm in
      rw (send_loop, enough, first, left, calm) refl

abbrev pub with_tasks : Conn → List Task → Conn
with_tasks c pieces = record c { tasks = c.tasks ++ pieces }

-- A message of `n` bytes on that channel can be put together again: it fits one chunk, or a byte is
-- enough for the header of the next one.
abbrev pub Separable : ℕ → ℕ → ℕ → Type 0
Separable channel size n = (n ≤ size) ⊎ ((2 ≤ channel) × (channel < 64))

-- The loop queues pieces from which the other side puts the bytes together.
pub loop-unchunk :
    (rounds chunkid : ℕ) (buf : List ℕ) (c : Conn)
    → c.memory ≡ []
    → 0 < c.ochunksize
    → Separable chunkid c.ochunksize (length buf)
    → length buf < rounds
    → (pieces : List Task) × (send_loop rounds chunkid buf c ≡ some (done, with_tasks c pieces))
      × ((fuel : ℕ) → length buf < fuel → unchunk fuel chunkid c.ochunksize (sent pieces) ≡ buf)
unfolding send_loop
loop-unchunk zero chunkid buf c calm some_size apart enough = absurd (omega arith)
loop-unchunk (suc rounds) chunkid [] c calm some_size apart enough =
    ([], rw (append-nil c.tasks) refl, λ fuel h. unchunk-nil fuel chunkid c.ochunksize)
loop-unchunk (suc rounds) chunkid (b ∷ buf) c calm some_size apart enough =
    elim (Bool-cases (ltb c.ochunksize (length (b ∷ buf)))) [
      | inr fits ↦
          let short : length (b ∷ buf) ≤ c.ochunksize = ground arith in
          (
            send (b ∷ buf) false ∷ [],
            last_round rounds chunkid b buf c calm short,
            λ fuel h.
                ap (unchunk fuel chunkid c.ochunksize) (append-nil (b ∷ buf))
                ∙ unchunk-last fuel chunkid c.ochunksize (b ∷ buf) (omega arith) short,
          )
      | inl longer ↦
          let n = c.ochunksize in
          let long : n < length (b ∷ buf) = ground arith in
          let low : (2 ≤ chunkid) × (chunkid < 64) = elim apart [
            | inl fits ↦ absurd (omega arith)
            | inr low ↦ low
          ] in
          let first = take n (b ∷ buf) in
          let size = length-drop n (b ∷ buf) (omega arith) in
          let (e, more, split) = nonempty (drop n (b ∷ buf)) (omega arith) in
          let left = ap length split in
          let between = queued (separator chunkid ∷ []) true (queued first false c) in
          let (pieces, runs, joined) =
            loop-unchunk rounds chunkid (e ∷ more) between calm some_size (inr low) (omega arith) in
          (
            send first false ∷ send (separator chunkid ∷ []) true ∷ pieces,
            full_round rounds chunkid b buf c calm e more long split
                ∙ runs
                ∙ ap (λ t. some (done, record c { tasks = t }))
                    (append_assoc (c.tasks ++ send first false ∷ [])
                        (send (separator chunkid ∷ []) true ∷ []) pieces
                      ∙ append_assoc c.tasks (send first false ∷ [])
                          (send (separator chunkid ∷ []) true ∷ pieces)),
            λ fuel h.
                unchunk-full fuel chunkid n (separator chunkid) first (sent pieces) (omega arith)
                  (length-take n (b ∷ buf) (omega arith)) (separator_is chunkid low.1)
                ∙ ap (λ t. first ++ t) (joined (fuel - 1) (omega arith) ∙ sym split)
                ∙ take-append-drop n (b ∷ buf),
          )
    ]
