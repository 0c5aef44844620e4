-- ===== src/Algorithms/Execute/Responses.antt =====
-- What process_response makes of the first message of each reply.
use mysql_asio.Base.{
  ℕ, ◌%◌, ◌<◌, ◌^◌, ◌≡◌, ◌≢◌, refl, sym, ap, ◌∙◌, List, [], ◌∷◌, ltb, ≢→==, Bool-cases, inl, inr,
  arith, tests, append-nil,
}
use mysql_asio.Base.Bytes.{to_le}
use mysql_asio.Base.Error.{ok, ErrorInfo, success, make_error_code}
use mysql_asio.Serialization.{serialize_int_lenenc, deserialize_int_lenenc, rewind}
use mysql_asio.Serialization.RoundTrip.{int_lenenc_back}
use mysql_asio.Serialization.Message.{deserialize_message-ok}
use mysql_asio.Messages.Common.{
  OkPacket, deserialize_ok_packet, ErrPacket, deserialize_err_packet, process_error_packet,
}
use mysql_asio.Resultset.Processing.{message_type_of}
use mysql_asio.Algorithms.Execute.{ExecuteProcessor, process_response}

-- A length that is not 0 starts neither like an OK packet nor like an error packet.
lenenc_starts :
    (n : ℕ)
    → n ≢ 0
    → (first : ℕ) × (rest : List ℕ) × (serialize_int_lenenc n ≡ first ∷ rest)
      × (first ≢ 0)
      × (first ≢ 0xff)
unfolding serialize_int_lenenc to_le
lenenc_starts n h = elim (Bool-cases (ltb n 251)) [
  | inl e ↦ (n % 256, [], rw e refl, omega tests, omega tests)
  | inr e ↦ elim (Bool-cases (ltb n 0x10000)) [
    | inl e' ↦ (0xfc, to_le 2 n, rw (e, e') refl, omega arith, omega arith)
    | inr e' ↦ elim (Bool-cases (ltb n 0x1000000)) [
      | inl e'' ↦ (0xfd, to_le 3 n, rw (e, e', e'') refl, omega arith, omega arith)
      | inr e'' ↦ (0xfe, to_le 8 n, rw (e, e', e'') refl, omega arith, omega arith)
    ]
  ]
]

pub response_completed :
    (p : ExecuteProcessor) (info : ErrorInfo) (packet : OkPacket) (body : List ℕ)
    → deserialize_ok_packet p.ok_packet body ≡ ok (packet, [])
    → process_response (record p { buffer = 0x00 ∷ body }) info
      ≡ (success, info, record p { buffer = 0x00 ∷ body; ok_packet = packet; field_count = 0 })
unfolding process_response
response_completed p info packet body h =
    rw
      (
        message_type_of 0x00 body,
        deserialize_message-ok (deserialize_ok_packet p.ok_packet) body packet h,
      )
      refl

pub error_packet_read :
    (body : List ℕ) (info : ErrorInfo) (packet : ErrPacket)
    → deserialize_err_packet body ≡ ok (packet, [])
    → process_error_packet body info ≡ (make_error_code packet.error_code, packet.error_message)
unfolding process_error_packet
error_packet_read body info packet h =
    rw (process_error_packet, deserialize_message-ok deserialize_err_packet body packet h) refl

pub response_refused :
    (p : ExecuteProcessor) (info : ErrorInfo) (packet : ErrPacket) (body : List ℕ)
    → deserialize_err_packet body ≡ ok (packet, [])
    → process_response (record p { buffer = 0xff ∷ body }) info
      ≡ (make_error_code packet.error_code, packet.error_message, record p { buffer = 0xff ∷ body })
unfolding process_response
response_refused p info packet body h =
    rw (message_type_of 0xff body, error_packet_read body info packet h) refl

pub response_columns :
    (p : ExecuteProcessor) (info : ErrorInfo) (n : ℕ)
    → n ≢ 0
    → n < 2 ^ 64
    → process_response (record p { buffer = serialize_int_lenenc n }) info
      ≡ (success, info, record p { buffer = serialize_int_lenenc n; field_count = n })
unfolding process_response rewind
response_columns p info n nonzero small =
    let (first, rest, starts, no_ok, no_error) = lenenc_starts n nonzero in
    let whole : deserialize_int_lenenc (first ∷ rest) ≡ ok (n, []) =
      ap deserialize_int_lenenc (sym starts ∙ sym (append-nil (serialize_int_lenenc n)))
      ∙ int_lenenc_back n [] small in
    rw
      (
        starts,
        message_type_of first rest,
        ≢→== first 0 no_ok,
        ≢→== first 0xff no_error,
        deserialize_message-ok deserialize_int_lenenc (first ∷ rest) n whole,
        ≢→== n 0 nonzero,
      )
      refl
