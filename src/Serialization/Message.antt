-- ===== src/Serialization/Message.antt =====
-- impl/serialization.hpp, "Structs" and "Miscellanea", and `deserialize_message_type`: whole
-- messages. A message type is a record with its list of field types and a tuple of its members, as
-- `get_struct_fields` gives it.
use mysql_asio.Base.{
  ℕ, ◌+◌, ◌-◌, ◌≡◌, refl, sym, ◌∙◌, List, [], ◌∷◌, ◌++◌, Option, none, some, length, take,
  replicate, length-append, length-take, length-replicate, arith, if◌then◌else◌,
}
use mysql_asio.Base.Bytes.{to_le}
use mysql_asio.Base.Error.{Result, ok, err, ◌>>=◌, make_error_code, extra_bytes}
use mysql_asio.Serialization.{
  FieldType, int1, Values, DeserializationContext, empty, deserialize_fixed_int, serialize,
  get_size,
}
use mysql_asio.Serialization.Shape.{AllHaveShape}
use mysql_asio.Serialization.Length.{length-serialize}
use mathlib.Core.Option

-- What `serialization_traits<T>` offers the senders of a message. `capabilities` is the number
-- that the serialization context carries.
pub record SerializationTraits (T : Type 0) : Type 0 where
  pub get_size_ : (capabilities : ℕ) → T → ℕ
  pub serialize_ : (capabilities : ℕ) → T → List ℕ

-- `serialize_` and `get_size_` of a struct with fields: a command puts its `command_id` first.
unfoldable pub serialize_struct : (command_id : Option ℕ) (ts : List FieldType) → Values ts → List ℕ
serialize_struct none ts input = serialize ts input
serialize_struct (some id) ts input = to_le 1 id ++ serialize ts input

unfoldable pub get_size_struct : (command_id : Option ℕ) (ts : List FieldType) → Values ts → ℕ
get_size_struct none ts input = 0 + get_size ts input
get_size_struct (some id) ts input = 1 + get_size ts input

pub length-serialize_struct :
    (command_id : Option ℕ) (ts : List FieldType) (input : Values ts)
    → AllHaveShape ts input
    → length (serialize_struct command_id ts input) ≡ get_size_struct command_id ts input
unfolding serialize_struct get_size_struct to_le
length-serialize_struct none ts input h = omega (arith, length-serialize ts input h)
length-serialize_struct (some id) ts input h = omega (arith, length-serialize ts input h)

-- `std::vector::resize`
unfoldable pub resize : ℕ → List ℕ → List ℕ
resize size buffer = take size buffer ++ replicate (size - length buffer) 0

pub length-resize : (size : ℕ) (buffer : List ℕ) → length (resize size buffer) ≡ size
unfolding resize
length-resize size buffer = omega (
  arith,
  length-append (take size buffer) (replicate (size - length buffer) 0),
  length-take size buffer,
  length-replicate {A = ℕ} (size - length buffer) 0,
)

-- Writes from `ctx.first()` on into the bytes of the buffer. `none` stands for a write behind the
-- buffer's end, and for a failure of the assertion that the writes end where the buffer does.
unfoldable pub write_all : List ℕ → List ℕ → Option (List ℕ)
write_all [] [] = some []
write_all [] (old ∷ room) = none
write_all (b ∷ bytes) [] = none
write_all (b ∷ bytes) (old ∷ room) = Option.map (λ l. b ∷ l) (write_all bytes room)

write_all_lem :
    (bytes room : List ℕ) → length bytes ≡ length room → write_all bytes room ≡ some bytes
unfolding write_all
write_all_lem [] [] h = refl
write_all_lem [] (old ∷ room) h = absurd (omega arith)
write_all_lem (b ∷ bytes) [] h = absurd (omega arith)
write_all_lem (b ∷ bytes) (old ∷ room) h = rw (write_all_lem bytes room (omega arith)) refl

unfoldable pub serialize_message :
    {T : Type 0}
    → SerializationTraits T
    → T
    → (capabilities : ℕ) → (buffer : List ℕ) → Option (List ℕ)
unfolding write_all resize
serialize_message traits input caps buffer =
    let size = traits.get_size_ caps input in
    write_all (traits.serialize_ caps input) (resize size buffer)

-- For an input whose bytes are as many as `get_size_` says.
pub serialize_message_lem :
    {T : Type 0} (traits : SerializationTraits T) (input : T) (caps : ℕ) (buffer : List ℕ)
    → length (traits.serialize_ caps input) ≡ traits.get_size_ caps input
    → serialize_message traits input caps buffer ≡ some (traits.serialize_ caps input)
unfolding serialize_message
serialize_message_lem traits input caps buffer sized =
    write_all_lem (traits.serialize_ caps input) (resize (traits.get_size_ caps input) buffer)
      (sized ∙ sym (length-resize (traits.get_size_ caps input) buffer))

-- `deserialize_message` of a message type whose `deserialize_` is `read`.
unfoldable pub deserialize_message :
    {T : Type 0}
    → (DeserializationContext → Result (T × DeserializationContext))
    → DeserializationContext
    → Result T
unfolding empty
deserialize_message read ctx = do
  (output, rest) ← read ctx
  if empty rest then ok output else err (make_error_code extra_bytes)

-- A `deserialize_message` that succeeds has read the whole buffer, and only then.
pub deserialize_message-ok :
    {T : Type 0} (read : DeserializationContext → Result (T × DeserializationContext))
    (ctx : DeserializationContext) (m : T)
    → read ctx ≡ ok (m, [])
    → deserialize_message read ctx ≡ ok m
unfolding deserialize_message
deserialize_message-ok read ctx m h = rw h

-- The message type is the byte that is read.
unfoldable pub deserialize_message_type :
    DeserializationContext → Result (ℕ × DeserializationContext)
unfolding deserialize_fixed_int
deserialize_message_type ctx = deserialize_fixed_int int1 ctx
