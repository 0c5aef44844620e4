-- ===== src/Messages/Statement/RoundTrip.antt =====
-- A sent execute message is read back by a server.
use mysql_asio.Base.{
  ◌/◌, sym, ℕ, suc, ◌+◌, ◌≡◌, refl, ap, ◌∙◌, List, [], ◌∷◌, ◌++◌, length, map, append_assoc,
  take-append_exact, drop-append_exact, arith, le→leb, length-append,
}
use mysql_asio.Base.Error.{ok}
use mysql_asio.Serialization.{fixed_int, int1, get_int_size, serialize, copy}
use mysql_asio.Serialization.RoundTrip.{deserialize-serialize}
use mysql_asio.NullBitmap.{byte_count, null_bitmap}
use mysql_asio.NullBitmap.Layout.{bit_at, is_null-bit_at}
use mysql_asio.NullBitmap.Laws.{null_bitmap-IsBitmap, is_null-null_bitmap}
use mysql_asio.Values.{Variant, is_nullptr, Calendar}
use mysql_asio.Values.Binary.Dates.{IsLawful}
use mysql_asio.Messages.Statement.{
  ComStmtExecutePacket, execute_fields, bind_flag_field, execute_bitmap, serialize_metas,
  serialize_values, serialize_execute,
}
use mysql_asio.Messages.Statement.Server.{head_layout, byte_layout, read_execute, IsSendableExecute}
use mysql_asio.Messages.Statement.Params.{metas_back, values_back}

length-map_flags : (vs : List Variant) → length (map is_nullptr vs) ≡ length vs
length-map_flags [] = refl
length-map_flags (v ∷ vs) = ap suc (length-map_flags vs)

bitmap_copied :
    (vs : List Variant) (rest : List ℕ)
    → copy ((length vs + 7) / 8) (null_bitmap (execute_bitmap vs) (map is_nullptr vs) ++ rest)
      ≡ ok (null_bitmap (execute_bitmap vs) (map is_nullptr vs), rest)
unfolding copy byte_count
bitmap_copied vs rest =
    let bitmap = null_bitmap (execute_bitmap vs) (map is_nullptr vs) in
    let count : ℕ = (length vs + 7) / 8 in
    let size : length bitmap ≡ count =
      (null_bitmap-IsBitmap (execute_bitmap vs) (map is_nullptr vs)).size ∙ omega arith in
    rw
      (
        le→leb count (length (bitmap ++ rest)) (omega (arith, size, length-append bitmap rest)),
        take-append_exact count bitmap rest size,
        drop-append_exact count bitmap rest size,
      )
      refl

-- A server that knows the number of parameters reads a sent execute message back: the command's id,
-- the statement, and the parameters, the NULL ones from the null bitmap and the others from their
-- types, flags and values by `deserialize_by_type`, with a date library that keeps its promises and no
-- more than 255 parameters, each NULL or one that can be sent. The layout, the bits and the types'
-- numbers are the protocol's.
pub execute_back :
    (cal : Calendar)
    → IsLawful cal
    → (p : ComStmtExecutePacket) (rest : List ℕ) → IsSendableExecute cal p
    → read_execute cal (length p.params) (serialize_execute cal p ++ rest) ≡ ok ((0x17, p), rest)
unfolding serialize_execute get_int_size
execute_back cal law p rest h =
    let t = execute_bitmap p.params in
    let bitmap = null_bitmap t (map is_nullptr p.params) in
    let flags = map is_nullptr p.params in
    rw
      (
        append_assoc (serialize (fixed_int int1 ∷ execute_fields) _) _ rest,
        deserialize-serialize head_layout
            (0x17, (p.statement_id, (p.flags, (p.iteration_count, tt)))) _
            (omega arith, (h.id_fits, (h.flags_fit, (h.count_fits, tt))))
            (tt, (tt, (tt, (tt, tt)))),
        append_assoc bitmap _ rest,
        bitmap_copied p.params _,
        append_assoc (serialize bind_flag_field _) _ rest,
        deserialize-serialize byte_layout (p.new_params_bind_flag, tt) _ (h.bind_fits, tt) (tt, tt),
        append_assoc (serialize_metas p.params) (serialize_values cal p.params) rest,
        metas_back p.params _,
        values_back cal law bitmap 0 p.params rest h.params_fit (λ k.
            ap (bit_at bitmap) {x = 0 + k} {y = k + 0} (omega arith)
            ∙ sym (is_null-bit_at t bitmap k (null_bitmap-IsBitmap t flags).bytes)
            ∙ is_null-null_bitmap t flags k (omega (arith, length-map_flags p.params))),
      )
      refl
