-- ===== src/Metadata/Types.antt =====
-- include/boost/mysql/field_type.hpp and impl/metadata.ipp: the type of a column that users see,
-- which `field_metadata` computes when it is first asked.
use mysql_asio.Base.{ℕ, Bool, true, false, not, ◌==◌, if◌then◌else◌, bit_and}
use mysql_asio.Metadata
use mysql_asio.Metadata.{ProtocolFieldType, protocol_type, FieldMetadata}

-- `field_type`
pub data FieldType : Type 0 where
  tinyint smallint mediumint int_ bigint float_ double_ decimal bit year time date datetime
        timestamp char_ varchar binary varbinary text blob enum_ set_ geometry unknown
        not_computed :
      FieldType

-- `column_flags`
abbrev pub binary_flag : ℕ
binary_flag = 128

abbrev pub enum_flag : ℕ
enum_flag = 256

abbrev pub set_flag : ℕ
set_flag = 2048

unfoldable pub compute_field_type_string : ℕ → FieldType
compute_field_type_string flags =
    if not (bit_and flags set_flag == 0)
    then set_
    else if not (bit_and flags enum_flag == 0)
    then enum_
    else if not (bit_and flags binary_flag == 0)
    then binary
    else char_

unfoldable pub compute_field_type_var_string : ℕ → FieldType
compute_field_type_var_string flags =
    if not (bit_and flags binary_flag == 0) then varbinary else varchar

unfoldable pub compute_field_type_blob : ℕ → FieldType
compute_field_type_blob flags = if not (bit_and flags binary_flag == 0) then blob else text

unfoldable pub compute_field_type : ProtocolFieldType → ℕ → FieldType
compute_field_type Metadata.decimal flags = decimal
compute_field_type Metadata.newdecimal flags = decimal
compute_field_type Metadata.geometry flags = geometry
compute_field_type Metadata.tiny flags = tinyint
compute_field_type Metadata.short_ flags = smallint
compute_field_type Metadata.int24 flags = mediumint
compute_field_type Metadata.long_ flags = int_
compute_field_type Metadata.longlong flags = bigint
compute_field_type Metadata.float_ flags = float_
compute_field_type Metadata.double_ flags = double_
compute_field_type Metadata.bit flags = bit
compute_field_type Metadata.date flags = date
compute_field_type Metadata.datetime flags = datetime
compute_field_type Metadata.timestamp flags = timestamp
compute_field_type Metadata.time flags = time
compute_field_type Metadata.year flags = year
compute_field_type Metadata.string flags = compute_field_type_string flags
compute_field_type Metadata.var_string flags = compute_field_type_var_string flags
compute_field_type Metadata.blob flags = compute_field_type_blob flags
compute_field_type t flags = unknown

-- `if (field_type_ == field_type::_not_computed)`
unfoldable pub is_not_computed : FieldType → Bool
is_not_computed not_computed = true
is_not_computed t = false

-- `type()`: what it returns is also the new `field_type_`, of which it takes the old one.
unfoldable pub field_type : FieldMetadata → FieldType → FieldType
field_type meta cached =
    if is_not_computed cached then compute_field_type (protocol_type meta) meta.flags else cached
