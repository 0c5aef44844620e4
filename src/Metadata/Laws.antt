-- ===== src/Metadata/Laws.antt =====
-- impl/metadata.ipp: `field_metadata::type`, with the type that it keeps.
use mysql_asio.Base.{ℕ, false, Bool-cases, inl, inr, ◌≡◌, refl, arith}
use mysql_asio.Metadata
use mysql_asio.Metadata.{ProtocolFieldType, protocol_type, FieldMetadata}
use mysql_asio.Metadata.Types.{
  FieldType, is_not_computed, compute_field_type_string, compute_field_type_var_string,
  compute_field_type_blob, compute_field_type, field_type,
}

string_computed : (flags : ℕ) → is_not_computed (compute_field_type_string flags) ≡ false
unfolding compute_field_type_string is_not_computed
string_computed flags = ground arith

var_string_computed : (flags : ℕ) → is_not_computed (compute_field_type_var_string flags) ≡ false
unfolding compute_field_type_var_string is_not_computed
var_string_computed flags = ground arith

blob_computed : (flags : ℕ) → is_not_computed (compute_field_type_blob flags) ≡ false
unfolding compute_field_type_blob is_not_computed
blob_computed flags = ground arith

compute_field_type-computed :
    (t : ProtocolFieldType) (flags : ℕ) → is_not_computed (compute_field_type t flags) ≡ false
unfolding compute_field_type is_not_computed
compute_field_type-computed Metadata.string flags = string_computed flags
compute_field_type-computed Metadata.var_string flags = var_string_computed flags
compute_field_type-computed Metadata.blob flags = blob_computed flags
compute_field_type-computed t flags = refl

-- Whatever the server says of a column and whatever type is kept: the type that `type` returns is
-- computed, as its assertion says, and every later call returns the same.
pub field_type-stable :
    (meta : FieldMetadata) (cached : FieldType)
    → (is_not_computed (field_type meta cached) ≡ false)
      × (field_type meta (field_type meta cached) ≡ field_type meta cached)
unfolding field_type
field_type-stable meta cached = elim (Bool-cases (is_not_computed cached)) [
  | inl e ↦
      let h = compute_field_type-computed (protocol_type meta) meta.flags in rw (e, h) (refl, refl)
  | inr e ↦ rw (e, e) (refl, refl)
]
