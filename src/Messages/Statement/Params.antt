-- ===== src/Messages/Statement/Params.antt =====
-- The parameters of a sent execute message are read back.
use mysql_asio.Base.{
  some, ℕ, suc, ◌+◌, ◌<◌, ◌≡◌, refl, ap, ◌∙◌, Bool, true, false, Bool-cases, inl, inr, List, [],
  ◌∷◌, ◌++◌, length, map, append_assoc, arith, ◌==◌, if◌then◌else◌, get_or, All,
}
use mysql_asio.Base.Error.{ok}
use mysql_asio.Serialization.{get_int_size, serialize, serialize_field}
use mysql_asio.Serialization.RoundTrip.{deserialize-serialize}
use mysql_asio.Metadata.{protocol_byte}
use mysql_asio.NullBitmap.Layout.{bit_at}
use mysql_asio.Values.{
  Variant, nullptr, int64, uint64, string_view, float_bits, double_bits, sys_days, sys_time,
  microseconds, is_nullptr, Calendar,
}
use mysql_asio.Values.Binary.Sending.{
  serialize_binary_value, get_protocol_field_type, is_unsigned_value,
}
use mysql_asio.Values.Binary.Dates.{IsLawful}
use mysql_asio.Values.Binary.RoundTrip.{deserialize-serialize_binary_value}
use mysql_asio.Messages.Statement.{
  param_meta_fields, unsigned_byte, serialize_metas, serialize_values,
}
use mysql_asio.Messages.Statement.Server.{
  meta_layout, wire_type, read_metas, read_values, metas_of, IsParam,
}

type_back :
    (v : Variant)
    → wire_type (protocol_byte (get_protocol_field_type v)) ≡ some (get_protocol_field_type v)
unfolding protocol_byte get_protocol_field_type
type_back nullptr = refl
type_back (int64 v) = refl
type_back (uint64 v) = refl
type_back (string_view v) = refl
type_back (float_bits w) = refl
type_back (double_bits w) = refl
type_back (sys_days v) = refl
type_back (sys_time v) = refl
type_back (microseconds v) = refl

type_fits : (v : Variant) → protocol_byte (get_protocol_field_type v) < 256
unfolding protocol_byte get_protocol_field_type
type_fits nullptr = omega arith
type_fits (int64 v) = omega arith
type_fits (uint64 v) = omega arith
type_fits (string_view v) = omega arith
type_fits (float_bits w) = omega arith
type_fits (double_bits w) = omega arith
type_fits (sys_days v) = omega arith
type_fits (sys_time v) = omega arith
type_fits (microseconds v) = omega arith

flag_back : (b : Bool) → ((if b then 0x80 else 0) == 0x80) ≡ b
flag_back true = refl
flag_back false = refl

flag_fits : (b : Bool) → (if b then 0x80 else 0) < 256
flag_fits true = omega arith
flag_fits false = omega arith

-- The enumeration and the flag are a byte each.
metas_written :
    (type flag : ℕ)
    → serialize param_meta_fields (type, (flag, tt)) ≡ serialize meta_layout (type, (flag, tt))
unfolding serialize serialize_field
metas_written type flag = refl

pub metas_back :
    (vs : List Variant) (rest : List ℕ)
    → read_metas (length vs) (serialize_metas vs ++ rest) ≡ ok (metas_of vs, rest)
unfolding serialize_metas get_int_size
metas_back [] rest = refl
metas_back (v ∷ vs) rest =
    rw
      (
        append_assoc (serialize param_meta_fields _) (serialize_metas vs) rest,
        metas_written (protocol_byte (get_protocol_field_type v)) (unsigned_byte v),
        deserialize-serialize meta_layout
            (protocol_byte (get_protocol_field_type v), (unsigned_byte v, tt))
            (serialize_metas vs ++ rest) (type_fits v, (flag_fits (is_unsigned_value v), tt))
            (tt, (tt, tt)),
        metas_back vs rest,
        type_back v,
        flag_back (is_unsigned_value v),
      )
      refl

null_back :
    (cal : Calendar) (v : Variant)
    → is_nullptr v ≡ true
    → (v ≡ nullptr) × (serialize_binary_value cal v ≡ [])
unfolding serialize_binary_value
null_back cal nullptr h = (refl, refl)
null_back cal (int64 v) h = cc
null_back cal (uint64 v) h = cc
null_back cal (string_view v) h = cc
null_back cal (float_bits w) h = cc
null_back cal (double_bits w) h = cc
null_back cal (sys_days v) h = cc
null_back cal (sys_time v) h = cc
null_back cal (microseconds v) h = cc

pub values_back :
    (cal : Calendar) (law : IsLawful cal) (bitmap : List ℕ) (i : ℕ) (vs : List Variant)
    (rest : List ℕ)
    → All (IsParam cal) vs
    → ((k : ℕ) → bit_at bitmap (i + k) ≡ get_or (map is_nullptr vs) k false)
    → read_values cal bitmap i (metas_of vs) (serialize_values cal vs ++ rest) ≡ ok (vs, rest)
unfolding serialize_values
values_back cal law bitmap i [] rest h f = refl
values_back cal law bitmap i (v ∷ vs) rest (h, hs) f =
    let here : bit_at bitmap i ≡ is_nullptr v =
      ap (bit_at bitmap) {x = i} {y = i + 0} (omega arith) ∙ f 0 in
    let others =
      values_back cal law bitmap (suc i) vs rest hs
        (λ k. ap (bit_at bitmap) {x = suc i + k} {y = i + suc k} (omega arith) ∙ f (suc k)) in
    elim (Bool-cases (is_nullptr v)) [
      | inl e ↦ rw (here, e, (null_back cal v e).1, others, (null_back cal v e).0) refl
      | inr e ↦
          rw
            (
              here,
              e,
              append_assoc (serialize_binary_value cal v) (serialize_values cal vs) rest,
              deserialize-serialize_binary_value cal law v (serialize_values cal vs ++ rest) (h e),
              others,
            )
            refl
    ]
