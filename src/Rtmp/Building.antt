-- ===== src/Rtmp/Building.antt =====
-- The values that the rtmp_resp_ functions of lib_src/transport/rns_rtmp.c build, and the allocations
-- by which they do it.
use Prim.Native.Char.{code}
use Prim.Native.String.{String}
use yclib.Base.{
  allocated, rest_of, ℕ, zero, suc, ◌&&◌, ◌%◌, ◌^◌, Bool, true, false, List, [], ◌∷◌, ◌++◌,
  if◌then◌else◌, length, take,
}
use yclib.Rtmp.Amf.{Value, Properties, value, dbl, str, obj, no_properties, property}
use yclib.Rtmp.Connection.{Conn, Ret, done, failed, allocating}

-- The bytes of a text, which is ASCII.
abbrev pub codes : String → List ℕ
codes String.[] = []
codes (String.◌∷◌ c s) = code c ∷ codes s

-- `sd_str_create`, whose length is a uint16_t
abbrev pub str_create : List ℕ → List ℕ
str_create s = take (length s % 2 ^ 16) s

-- `n` allocations, up to the first that fails
abbrev pub allocate : ℕ → Conn → Ret × Conn
allocate zero c = (done, c)
allocate (suc n) c = allocating 1 c λ d. allocate n d

-- Goes on after a result of 0, and returns any other.
abbrev pub proceed : Ret × Conn → (Conn → Ret × Conn) → Ret × Conn
proceed (done, c) next = next c
proceed (failed n, c) next = (failed n, c)

-- One allocation, and whether it succeeds
abbrev pub one : Conn → Bool × Conn
one c = (allocated c.memory, record c { memory = rest_of c.memory })

-- The two allocations of `sd_str_create`
abbrev pub make_str : Conn → Bool × Conn
make_str c = let (room, d) = one c in if room then one d else (false, d)

-- What the value of a property refers to; an object is there already.
abbrev pub make_pointee : Value → Conn → Bool × Conn
make_pointee (value type (str s)) c = make_str c
make_pointee (value type (dbl bytes)) c = one c
make_pointee (value type p) c = (true, c)

-- The value and the property, which are made where name and content are there
abbrev pub make_pair : ℕ → Bool → Conn → Ret × Conn
make_pair code both c =
    if both then (allocating code c λ d. allocating 1 d λ e. (done, e)) else (failed 1, c)

-- Tries both the name and the content before it tests for either; `code` is the result where the value
-- cannot be made.
abbrev pub make_property : ℕ → Value → Conn → Ret × Conn
make_property code v c =
    let (named, d) = make_str c in
    let (made, e) = make_pointee v d in make_pair code (named && made) e

abbrev pub make_properties : List (List ℕ × Value) → Conn → Ret × Conn
make_properties [] c = (done, c)
make_properties ((name, v) ∷ fields) c = proceed (make_property 1 v c) λ d. make_properties fields d

abbrev pub properties : List (List ℕ × Value) → Properties
properties [] = no_properties
properties ((name, v) ∷ fields) = property (str_create name) v (properties fields)

abbrev pub object : List (List ℕ × Value) → Value
object fields = value 3 (obj (properties fields))

abbrev pub text : List ℕ → Value
text s = value 2 (str (str_create s))

abbrev pub result_name : Bool → Value
result_name type = if type then text (codes "_result") else text (codes "_error")

abbrev pub head_fields : List ℕ → List (List ℕ × Value)
head_fields code = (codes "level", text (codes "status")) ∷ (codes "code", text code) ∷ []

-- The description, whose text is printed to a buffer of its own between its name and its content
abbrev pub make_description : Conn → Ret × Conn
make_description c =
    let (named, d) = make_str c in
    let (room, e) = one d in
    let (made, f) = make_str e in if room then make_pair 1 (named && made) f else (failed 1, e)

abbrev pub make_status : List ℕ → List (List ℕ × Value) → Conn → Ret × Conn
make_status code last c = proceed (allocate 1 c) λ d.
    proceed (make_properties (head_fields code) d)
      λ e. proceed (make_description e) λ f. proceed (make_properties last f) λ g. allocate 1 g

abbrev pub status : List ℕ → List ℕ → List (List ℕ × Value) → Value
status code description last =
    object (head_fields code ++ (codes "description", text description) ∷ last)

abbrev pub client_fields : List (List ℕ × Value)
client_fields = (codes "clientid", text (codes "clientid")) ∷ []

abbrev pub detail_fields : List (List ℕ × Value)
detail_fields = (codes "details", text (codes "test")) ∷ client_fields

abbrev pub server_version : Value
server_version = text (codes "FMS/3,5,1,525")

abbrev pub version_fields : List (List ℕ × Value)
version_fields = (codes "version", text (codes "3,5,1,525")) ∷ []
