-- ===== src/Messages/Statement/Laws.antt =====
-- The size of an execute message.
use mysql_asio.Base.{◌*◌, ◌≡◌, refl, List, [], ◌∷◌, ◌++◌, length, map, length-append, arith}
use mysql_asio.Serialization.{fixed_int, int1, serialize, get_size, get_size_field, get_int_size}
use mysql_asio.Serialization.Length.{length-serialize}
use mysql_asio.Serialization.Message.{SerializationTraits}
use mysql_asio.NullBitmap.{null_bitmap}
use mysql_asio.NullBitmap.Laws.{null_bitmap-IsBitmap}
use mysql_asio.Values.{Variant, is_nullptr, Calendar}
use mysql_asio.Values.Binary.Sizes.{length-serialize_binary_value}
use mysql_asio.Values.Binary.Sending.{serialize_binary_value}
use mysql_asio.Messages.Statement.{
  ComStmtExecutePacket, execute_fields, bind_flag_field, param_meta_fields, execute_bitmap,
  serialize_metas, serialize_values, get_values_size, serialize_execute, get_size_execute,
}

length-serialize_metas : (vs : List Variant) → length (serialize_metas vs) ≡ 2 * length vs
unfolding serialize_metas get_size get_size_field get_int_size
length-serialize_metas [] = omega arith
length-serialize_metas (v ∷ vs) = omega (
  arith,
  length-append (serialize param_meta_fields _) (serialize_metas vs),
  length-serialize param_meta_fields _ (tt, (tt, tt)),
  length-serialize_metas vs,
)

length-serialize_values :
    (cal : Calendar) (vs : List Variant) → length (serialize_values cal vs) ≡ get_values_size vs
unfolding serialize_values get_values_size
length-serialize_values cal [] = refl
length-serialize_values cal (v ∷ vs) = omega (
  arith,
  length-append (serialize_binary_value cal v) (serialize_values cal vs),
  length-serialize_binary_value cal v,
  length-serialize_values cal vs,
)

-- Whatever the parameters, the bytes of an execute message are as many as its `get_size_` says.
pub length-serialize_execute :
    (cal : Calendar) (p : ComStmtExecutePacket)
    → length (serialize_execute cal p) ≡ get_size_execute p
unfolding serialize_execute get_size_execute get_size get_size_field get_int_size
length-serialize_execute cal p =
    let bitmap = null_bitmap (execute_bitmap p.params) (map is_nullptr p.params) in
    let tail = serialize_metas p.params ++ serialize_values cal p.params in
    omega (
      arith,
      length-append (serialize (fixed_int int1 ∷ execute_fields) _)
          (bitmap ++ (serialize bind_flag_field (p.new_params_bind_flag, tt) ++ tail)),
      length-append bitmap (serialize bind_flag_field (p.new_params_bind_flag, tt) ++ tail),
      length-append (serialize bind_flag_field (p.new_params_bind_flag, tt)) tail,
      length-append (serialize_metas p.params) (serialize_values cal p.params),
      length-serialize (fixed_int int1 ∷ execute_fields)
          (0x17, (p.statement_id, (p.flags, (p.iteration_count, tt)))) (tt, (tt, (tt, (tt, tt)))),
      (null_bitmap-IsBitmap (execute_bitmap p.params) (map is_nullptr p.params)).size,
      length-serialize bind_flag_field (p.new_params_bind_flag, tt) (tt, tt),
      length-serialize_metas p.params,
      length-serialize_values cal p.params,
    )

abbrev pub com_stmt_execute_traits : Calendar → SerializationTraits ComStmtExecutePacket
com_stmt_execute_traits cal = record {
  get_size_ = λ caps p. get_size_execute p;
  serialize_ = λ caps p. serialize_execute cal p;
}
