-- ===== src/Metadata.antt =====
-- include/boost/mysql/metadata.hpp, with `protocol_field_type` and the column flags of
-- detail/protocol/constants.hpp: what the server says of a column.
use mysql_asio.Base.{ℕ, Bool, not, ◌==◌, if◌then◌else◌, bit_and}
use mysql_asio.Messages.Common.{ColumnDefinitionPacket}
pub mod Types
pub mod Laws
pub mod Tests

-- The enumerators, and the bytes that have no name.
pub data ProtocolFieldType : Type 0 where
  decimal tiny short_ long_ float_ double_ null timestamp longlong int24 date time datetime year
        varchar bit newdecimal enum_ set_ tiny_blob medium_blob long_blob blob var_string string
        geometry :
      ProtocolFieldType
  unnamed : ℕ → ProtocolFieldType

-- The underlying number.
unfoldable pub protocol_byte : ProtocolFieldType → ℕ
protocol_byte decimal = 0x00
protocol_byte tiny = 0x01
protocol_byte short_ = 0x02
protocol_byte long_ = 0x03
protocol_byte float_ = 0x04
protocol_byte double_ = 0x05
protocol_byte null = 0x06
protocol_byte timestamp = 0x07
protocol_byte longlong = 0x08
protocol_byte int24 = 0x09
protocol_byte date = 0x0a
protocol_byte time = 0x0b
protocol_byte datetime = 0x0c
protocol_byte year = 0x0d
protocol_byte varchar = 0x0f
protocol_byte bit = 0x10
protocol_byte newdecimal = 0xf6
protocol_byte enum_ = 0xf7
protocol_byte set_ = 0xf8
protocol_byte tiny_blob = 0xf9
protocol_byte medium_blob = 0xfa
protocol_byte long_blob = 0xfb
protocol_byte blob = 0xfc
protocol_byte var_string = 0xfd
protocol_byte string = 0xfe
protocol_byte geometry = 0xff
protocol_byte (unnamed b) = b

-- The enumerator of a byte.
unfoldable pub protocol_field_type : ℕ → ProtocolFieldType
protocol_field_type b =
    if b == 0x00
    then decimal
    else if b == 0x01
    then tiny
    else if b == 0x02
    then short_
    else if b == 0x03
    then long_
    else if b == 0x04
    then float_
    else if b == 0x05
    then double_
    else if b == 0x06
    then null
    else if b == 0x07
    then timestamp
    else if b == 0x08
    then longlong
    else if b == 0x09
    then int24
    else if b == 0x0a
    then date
    else if b == 0x0b
    then time
    else if b == 0x0c
    then datetime
    else if b == 0x0d
    then year
    else if b == 0x0f
    then varchar
    else if b == 0x10
    then bit
    else if b == 0xf6
    then newdecimal
    else if b == 0xf7
    then enum_
    else if b == 0xf8
    then set_
    else if b == 0xf9
    then tiny_blob
    else if b == 0xfa
    then medium_blob
    else if b == 0xfb
    then long_blob
    else if b == 0xfc
    then blob
    else if b == 0xfd
    then var_string
    else if b == 0xfe
    then string
    else if b == 0xff
    then geometry
    else unnamed b

-- `column_flags::unsigned_`
abbrev pub unsigned_flag : ℕ
unsigned_flag = 32

-- `field_metadata`: the column definition; the cached `field_type_` is not part of it.
abbrev pub FieldMetadata : Type 0
FieldMetadata = ColumnDefinitionPacket

unfoldable pub flag_set : FieldMetadata → ℕ → Bool
flag_set meta flag = not (bit_and meta.flags flag == 0)

unfoldable pub protocol_type : FieldMetadata → ProtocolFieldType
protocol_type meta = protocol_field_type meta.type

unfoldable pub is_unsigned : FieldMetadata → Bool
is_unsigned meta = flag_set meta unsigned_flag
