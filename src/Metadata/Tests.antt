-- ===== src/Metadata/Tests.antt =====
-- impl/metadata.ipp: the type of a column that is an ENUM.
use mysql_asio.Base.{false, ◌≡◌, refl, []}
use mysql_asio.Metadata.{FieldMetadata, protocol_type, protocol_field_type}
use mysql_asio.Metadata.Types.{
  enum_, not_computed, is_not_computed, field_type, compute_field_type, compute_field_type_string,
}
use mysql_asio.Metadata.Laws.{field_type-stable}

-- The server sends an ENUM as a `string` with the flag.
abbrev enum_column : FieldMetadata
enum_column = record {
  catalog = [];
  schema = [];
  table = [];
  org_table = [];
  name = [];
  org_name = [];
  character_set = 33;
  column_length = 10;
  type = 254;
  flags = 256;
  decimals = 0;
}

enum_test : field_type enum_column not_computed ≡ enum_
unfolding field_type compute_field_type compute_field_type_string is_not_computed protocol_type
    protocol_field_type
enum_test = refl

field_type-stable_example :
    (is_not_computed (field_type enum_column not_computed) ≡ false)
    × (field_type enum_column (field_type enum_column not_computed)
        ≡ field_type enum_column not_computed)
field_type-stable_example = field_type-stable enum_column not_computed
