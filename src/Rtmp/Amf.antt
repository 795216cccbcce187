-- ===== src/Rtmp/Amf.antt =====
-- lib_src/transport/rns_rtmp.c, the sd_ functions: script data values, as they are read from and
-- written to a buffer. A buffer is the list of the bytes that its size covers.
pub mod Encoding
pub mod Reading
pub mod Writing
pub mod RoundTrip
use yclib.Base.{
  ℕ, zero, suc, ◌+◌, ◌-◌, ◌^◌, Bool, true, false, ◌&&◌, Option, none, some, List, [], ◌∷◌, ◌++◌,
  ltb, leb, ◌==◌, if◌then◌else◌, u8, u32, ◌>>=◌, length, take, drop,
}
use yclib.Network.{btoh16, btoh32, htob16, htob32}
use yclib.Network.Reverse.{rns_reverse}

-- `sd_value_t` with what its pointer refers to, and `sd_obj_t` as the list of its properties. A
-- double is the eight bytes of its representation in memory.
mutual
  pub data Value : Type 0 where
    value : ℕ → Pointee → Value

  pub data Pointee : Type 0 where
    null_pointer : Pointee
    dbl : List ℕ → Pointee
    ui8 : ℕ → Pointee
    str : List ℕ → Pointee
    obj : Properties → Pointee
    ecma : ℕ → Properties → Pointee

  pub data Properties : Type 0 where
    no_properties : Properties
    property : List ℕ → Value → Properties → Properties

-- The `rns_malloc` calls of the read functions
pub data Site : Type 0 where
  value_site dbl_site ui8_site str_site str_bytes_site objppt_site ecma_site obj_site : Site

-- What a read function gives: a pointer with `*len`, or NULL with `*len`. A `fault` is a read outside
-- the buffer or outside the table of readers.
pub data Outcome {ℓ} (A : Type ℓ) : Type ℓ where
  made : A → ℕ → Outcome A
  null : ℕ → Outcome A
  fault out_of_fuel : Outcome A

abbrev pub bind {ℓ κ} : {A : Type ℓ} {B : Type κ} → Outcome A → (A → ℕ → Outcome B) → Outcome B
bind (made a bytes) f = f a bytes
bind (null bytes) f = null bytes
bind fault f = fault
bind out_of_fuel f = out_of_fuel

-- `*len = bytes ? size : 0` of a NULL that comes from the calls inside.
abbrev pub whole {ℓ} : {A : Type ℓ} → ℕ → Outcome A → Outcome A
whole size (null bytes) = null (if bytes == 0 then 0 else size)
whole size r = r

abbrev pub defined {ℓ κ} : {A : Type ℓ} {B : Type κ} → Option A → (A → Outcome B) → Outcome B
defined none f = fault
defined (some a) f = f a

-- The value that `sd_value_read` makes whatever the reader of its type returns.
abbrev pub keep : ℕ → Outcome Pointee → Outcome Value
keep type (made p bytes) = made (value type p) (u32 (1 + bytes))
keep type (null bytes) = made (value type null_pointer) (u32 (1 + bytes))
keep type fault = fault
keep type out_of_fuel = out_of_fuel

-- Whether the loop of `sd_obj_read` ends here; the test reads up to three bytes.
unfoldable pub at_end : List ℕ → Option Bool
at_end [] = some true
at_end (suc _ ∷ _) = some false
at_end (zero ∷ []) = none
at_end (zero ∷ suc _ ∷ _) = some false
at_end (zero ∷ zero ∷ []) = none
at_end (zero ∷ zero ∷ c ∷ _) = some (c == 9)

-- `mem site left` says whether the allocation at that place of the code succeeds where `left` bytes
-- of the input remain; no two allocations of one read share both.
module _ (mem : Site → ℕ → Bool) where
  -- Allocates first: a failure returns NULL and the whole size.
  abbrev pub allocating {ℓ} : {A : Type ℓ} → Site → List ℕ → Outcome A → Outcome A
  allocating site buf r = if mem site (length buf) then r else null (length buf)

  unfoldable pub ui8_read : List ℕ → Outcome Pointee
  ui8_read [] = null 0
  ui8_read (b ∷ buf) = allocating ui8_site (b ∷ buf) (made (ui8 b) 1)

  unfoldable pub dbl_read : List ℕ → Outcome Pointee
  unfolding rns_reverse
  dbl_read buf =
      allocating dbl_site buf
        (if ltb (length buf) 8 then null 0 else made (dbl (rns_reverse (take 8 buf))) 8)

  unfoldable pub str_read : List ℕ → Outcome (List ℕ)
  str_read buf = allocating str_site buf (
      if ltb (length buf) 2
      then null 0
      else defined (btoh16 buf) λ len.
        if ltb (length (drop 2 buf)) len
        then null 0
        else if mem str_bytes_site (length (drop 2 buf))
        then made (take len (drop 2 buf)) (2 + len)
        else null (length buf))

  -- The readers that call one another, on fuel, of which each call takes a unit.
  unfoldable mutual
    unfolding ui8_read dbl_read str_read at_end

    pub value_read : ℕ → List ℕ → Outcome Value
    value_read zero buf = out_of_fuel
    value_read (suc f) [] = allocating value_site [] (null 0)
    value_read (suc f) (type ∷ walker) =
        let pointee = pointee_read f type walker in
        allocating value_site (type ∷ walker)
          (if leb 13 type then null (length (type ∷ walker)) else keep type pointee)

    -- `sd_read[type]`, a table of nine functions
    pub pointee_read : ℕ → ℕ → List ℕ → Outcome Pointee
    pointee_read zero type walker = out_of_fuel
    pointee_read (suc f) type walker =
        let object = bind (obj_read f walker) λ ps bytes. made (obj ps) bytes in
        let text = bind (str_read walker) λ s bytes. made (str s) bytes in
        let array = ecma_read f walker in
        if type == 0
        then dbl_read walker
        else if type == 1
        then ui8_read walker
        else if type == 2
        then text
        else if type == 3
        then object
        else if ltb type 8
        then null 0
        else if type == 8
        then array
        else fault

    pub ecma_read : ℕ → List ℕ → Outcome Pointee
    ecma_read zero buf = out_of_fuel
    ecma_read (suc f) buf =
        let body = whole (length buf) (obj_read f (drop 4 buf)) in
        allocating ecma_site buf (
          if ltb (length buf) 4
          then null 0
          else defined (btoh32 buf)
              λ size. bind body λ ps bytes. made (ecma size ps) (u32 (4 + bytes)))

    pub obj_read : ℕ → List ℕ → Outcome Properties
    obj_read zero buf = out_of_fuel
    obj_read (suc f) buf =
        let body = whole (length buf) (obj_loop f buf) in allocating obj_site buf body

    -- The loop from here on, with the bytes that it and the three of the end take.
    pub obj_loop : ℕ → List ℕ → Outcome Properties
    obj_loop zero buf = out_of_fuel
    obj_loop (suc f) buf =
        let round = bind (objppt_read f buf) λ (name, v) bytes.
          bind (obj_loop f (drop bytes buf))
            λ ps more. made (property name v ps) (u32 (bytes + more)) in
        defined (at_end buf) λ ends. if ends then made no_properties 3 else round

    pub objppt_read : ℕ → List ℕ → Outcome (List ℕ × Value)
    objppt_read zero buf = out_of_fuel
    objppt_read (suc f) buf =
        let named = bind (str_read buf) λ name bytes.
          bind (value_read f (drop bytes buf)) λ v more. made (name, v) (u32 (bytes + more)) in
        allocating objppt_site buf (whole (length buf) named)

-- What a write function stores from `buf` on, with the bytes of the buffer behind them; `none` is a
-- write outside the buffer, or a read of what a pointer does not refer to.
abbrev pub Written : Type 0
Written = Option (List ℕ × List ℕ)

abbrev pub store : List ℕ → List ℕ → Written
store bytes buf =
    if ltb (length buf) (length bytes) then none else some (bytes, drop (length bytes) buf)

-- Two writes, the second where the first ends.
abbrev pub after : Written → (List ℕ → Written) → Written
after first second =
    first >>= λ (bytes, buf). second buf >>= λ (more, rest). some (bytes ++ more, rest)

unfoldable pub str_write : List ℕ → List ℕ → Written
unfolding htob16
str_write s buf = after (store (htob16 (length s)) buf) λ walker. store s walker

-- The four entries `sd_null_write` of the table; the other writers read what they point to.
abbrev pub null_write : ℕ → List ℕ → Written
null_write type walker = if leb 4 type && leb type 7 then some ([], walker) else none

unfoldable mutual
  unfolding str_write htob32 rns_reverse

  -- A type from 13 on is stored alone, and the walker goes to the end of the buffer.
  pub value_write : Value → List ℕ → Written
  value_write (value type p) buf = after (store (type ∷ []) buf) λ walker.
      let pointee = pointee_write type p walker in
      if leb 13 type then some (walker, []) else pointee

  -- `sd_write[type]`, a table of nine functions
  pub pointee_write : ℕ → Pointee → List ℕ → Written
  pointee_write type null_pointer walker = null_write type walker
  pointee_write type (dbl bytes) walker =
      if type == 0 then store (rns_reverse bytes) walker else null_write type walker
  pointee_write type (ui8 b) walker =
      if type == 1 then store (b ∷ []) walker else null_write type walker
  pointee_write type (str s) walker =
      if type == 2 then str_write s walker else null_write type walker
  pointee_write type (obj ps) walker =
      let object = obj_write ps walker in if type == 3 then object else null_write type walker
  pointee_write type (ecma size ps) walker =
      let array = after (store (htob32 size) walker) λ rest. obj_write ps rest in
      if type == 8 then array else null_write type walker

  pub obj_write : Properties → List ℕ → Written
  obj_write no_properties buf = store (0 ∷ 0 ∷ 9 ∷ []) buf
  obj_write (property name v ps) buf =
      after (after (str_write name buf) λ walker. value_write v walker)
        λ walker. obj_write ps walker
