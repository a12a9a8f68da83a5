-- ===== src/Gateway/NetMessage.antt =====
-- gateway_server/sdk/net_message.h and net_message.cc: the buffers of messages. A short message is an array
-- in the object; a longer one is a vector that copies share until one of them is written.
use cpp_framework.Prelude.{
  ℕ, zero, suc, ◌+◌, ◌-◌, Bool, true, false, not, Option, none, some, List, [], ◌∷◌, ◌++◌, ◌==◌,
  nat_key, Bytes, length, get_or, set, take, drop, min, if◌then◌else◌, ltb, leb,
}
use cpp_framework.Router.Fault.{Fault, Result, ok, fault, assert, ◌>>◌}
pub mod Valid
pub mod Changes
pub mod Writes
pub mod Values
pub mod Inserts
mod Tests

-- `static_data` is the part of the array that is in use; `dynamic_data` the address of a vector.
pub record NetMessage : Type 0 where
  pub static_data : Bytes
  pub dynamic_data : Option ℕ

-- The messages of a process, and the vectors by their address.
pub record Store : Type 0 where
  pub messages : List NetMessage
  pub vectors : List Bytes

abbrev pub dynamic_threshold : ℕ
dynamic_threshold = 128

abbrev pub new_message : NetMessage
new_message = record { static_data = []; dynamic_data = none }

unfoldable pub message_at : ℕ → Store → NetMessage
message_at i s = get_or s.messages i new_message

unfoldable pub put : ℕ → NetMessage → Store → Store
put i m s = record s { messages = set s.messages i m }

-- The bytes from `begin` to `end`.
unfoldable pub bytes_of : List Bytes → Bytes → Option ℕ → Bytes
bytes_of vectors static none = static
bytes_of vectors static (some p) = get_or vectors p []

unfoldable pub contents : ℕ → Store → Bytes
contents i s = bytes_of s.vectors (message_at i s).static_data (message_at i s).dynamic_data

unfoldable pub points_to : ℕ → Option ℕ → Bool
points_to p none = false
points_to p (some q) = q == p

-- `use_count` of the shared pointers to a vector.
unfoldable pub holders : ℕ → List NetMessage → ℕ
holders p [] = 0
holders p (m ∷ ms) =
    let rest = holders p ms in if points_to p m.dynamic_data then suc rest else rest

-- `make_shared`: the vector stands at a new address.
unfoldable pub make_shared : ℕ → Bytes → Store → Store
make_shared i bytes s =
    put i (record (message_at i s) { dynamic_data = some (length s.vectors) })
      (record s { vectors = s.vectors ++ bytes ∷ [] })

unfoldable pub set_dynamic_of : Option ℕ → ℕ → Store → Store
set_dynamic_of (some p) i s = s
set_dynamic_of none i s = make_shared i (message_at i s).static_data s

-- `SetDynamic`
unfoldable pub set_dynamic : ℕ → Store → Store
set_dynamic i s = set_dynamic_of (message_at i s).dynamic_data i s

unfoldable pub reserve_of : Option ℕ → ℕ → ℕ → Store → Store
reserve_of (some p) i size s = s
reserve_of none i size s = if ltb size dynamic_threshold then s else set_dynamic i s

-- `Reserve`: the capacity of a vector does not show.
unfoldable pub reserve : ℕ → ℕ → Store → Store
unfolding reserve_of
reserve i size s = reserve_of (message_at i s).dynamic_data i size s

-- The end of `Write`: a vector that others hold is copied first.
unfoldable pub append_dynamic : Option ℕ → ℕ → Bytes → Store → Store
append_dynamic none i bytes s = s
append_dynamic (some p) i bytes s =
    let longer = get_or s.vectors p [] ++ bytes in
    if holders p s.messages == 1
    then record s { vectors = set s.vectors p longer }
    else make_shared i longer s

unfoldable pub write_of : Option ℕ → ℕ → Bytes → Store → Store
write_of (some p) i bytes s = append_dynamic (some p) i bytes s
write_of none i bytes s =
    let static = (message_at i s).static_data in
    let t = set_dynamic i s in
    if leb (length static + length bytes) dynamic_threshold
    then put i (record (message_at i s) { static_data = static ++ bytes }) s
    else append_dynamic (message_at i t).dynamic_data i bytes t

-- `Write`
unfoldable pub write : ℕ → Bytes → Store → Store
write i bytes s = write_of (message_at i s).dynamic_data i bytes s

-- `clear`
unfoldable pub clear : ℕ → Store → Store
clear i s = put i new_message s

unfoldable pub assigned : Option ℕ → NetMessage → NetMessage → NetMessage
assigned (some p) this other = record this { dynamic_data = some p }
assigned none this other = record { static_data = other.static_data; dynamic_data = none }

-- `operator =`
unfoldable pub assign_message : ℕ → ℕ → Store → Store
unfolding assigned
assign_message i j s =
    if i == j
    then s
    else put i (assigned (message_at j s).dynamic_data (message_at i s) (message_at j s)) s

-- `Swap`: the static part of a dynamic message is not copied, but its size is exchanged; what the array
-- of a dynamic message holds is never read.
unfoldable pub swapped : Option ℕ → Option ℕ → NetMessage → NetMessage → NetMessage × NetMessage
swapped (some p) (some q) this other =
    (record this { dynamic_data = some q }, record other { dynamic_data = some p })
swapped (some p) none this other = (
  record { static_data = other.static_data; dynamic_data = none },
  record { static_data = this.static_data; dynamic_data = some p },
)
swapped none (some q) this other = (
  record { static_data = other.static_data; dynamic_data = some q },
  record { static_data = this.static_data; dynamic_data = none },
)
swapped none none this other = (
  record { static_data = other.static_data; dynamic_data = none },
  record { static_data = this.static_data; dynamic_data = none },
)

unfoldable pub swap : ℕ → ℕ → Store → Store
unfolding swapped
swap i j s =
    let r =
      swapped (message_at i s).dynamic_data (message_at j s).dynamic_data (message_at i s)
        (message_at j s) in
    put j r.1 (put i r.0 s)

unfoldable pub set_bytes_in : Option ℕ → ℕ → Bytes → Store → Store
set_bytes_in none i bytes s = put i (record (message_at i s) { static_data = bytes }) s
set_bytes_in (some p) i bytes s = record s { vectors = set s.vectors p bytes }

-- `setBytes`: it writes over the first bytes, also where others hold the vector.
unfoldable pub set_bytes : ℕ → ℕ → Bytes → Store → ℕ × Store
unfolding set_bytes_in
set_bytes i wanted buff s =
    let now = contents i s in
    let n = min (min wanted (length now)) dynamic_threshold in
    (n, set_bytes_in (message_at i s).dynamic_data i (take n buff ++ drop n now) s)

-- `getBytes`
unfoldable pub get_bytes : ℕ → ℕ → Store → Bytes
get_bytes i wanted s = take (min wanted (length (contents i s))) (contents i s)

unfoldable pub splice : ℕ → Bytes → Bytes → Bytes
splice offset bytes now = take offset now ++ bytes ++ drop offset now

-- The bytes that fit into the array are moved up; for others a vector is made, and they go into that.
unfoldable pub insert_static : ℕ → ℕ → Bytes → Store → Store
insert_static i offset bytes s =
    let longer = splice offset bytes (message_at i s).static_data in
    if leb (length bytes + length (message_at i s).static_data) dynamic_threshold
    then put i (record (message_at i s) { static_data = longer }) s
    else make_shared i longer s

unfoldable pub insert_of : Option ℕ → ℕ → ℕ → Bytes → Store → Result Store
insert_of (some p) i offset bytes s = fault Fault.assertion
insert_of none i offset bytes s =
    assert (ltb offset (length (message_at i s).static_data)) >> ok (insert_static i offset bytes s)

-- `insert` at a number of bytes after `begin`. The assertion is that the place is the end or in the array of
-- the object, which no other place in a vector is.
unfoldable pub insert : ℕ → ℕ → Bytes → Store → Result Store
unfolding insert_of insert_static splice
insert i offset bytes s =
    if offset == length (contents i s)
    then ok (write i bytes s)
    else insert_of (message_at i s).dynamic_data i offset bytes s
