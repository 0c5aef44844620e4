-- ===== src/Algorithms/Async/Execute.antt =====
-- `execute_generic_op` of impl/execute_generic.hpp.
use mysql_asio.Base.{
  ℕ, zero, suc, ◌≡◌, refl, subst, List, [], Option, none, some, Bool-cases, inl, inr, if◌then◌else◌,
}
use mysql_asio.Base.Error.{ErrorCode, ErrorInfo, success, failed}
use mysql_asio.Serialization.Message.{SerializationTraits}
use mysql_asio.Resultset.{DeserializeRowFn, Resultset}
use mysql_asio.Algorithms.{MessageLayer, ◌>>=◌, >>=-eq-some, some_injective}
use mysql_asio.Algorithms.Execute.{
  ExecuteProcessor, new_processor, process_response, process_field_definition, create_resultset,
  Executed, stopped, read_fields, after_response, execute_generic,
}
use mysql_asio.Algorithms.Async.{Yielded, async_read, async_write, completed, run, perform}

-- The points where the operation goes on; `field_read` has `remaining_fields_`.
pub data ExecutePoint : Type 0 where
  at_start request_written response_read : ExecutePoint
  field_read : ℕ → ExecutePoint

pub record ExecuteOp : Type 0 where
  pub point : ExecutePoint
  pub processor : ExecuteProcessor

-- The code, what is assigned to the caller's info, and the resultset: `none` is the default one.
abbrev pub ExecuteOut : Type 0
ExecuteOut = ErrorCode × ErrorInfo × Option Resultset

module _ {C : Type 0} where
  abbrev pub complete_execute :
      ErrorCode
      → ErrorInfo
      → Option Resultset
      → ExecuteProcessor
      → C
      → Yielded ExecuteOut × ExecuteOp × C
  complete_execute code info output p c =
      (completed (code, info, output), record { point = at_start; processor = p }, c)

  -- The head of the loop, with the fields that remain.
  abbrev pub next_field : ℕ → ExecuteProcessor → C → Yielded ExecuteOut × ExecuteOp × C
  next_field zero p c = complete_execute success [] (some (create_resultset p)) p c
  next_field (suc remaining) p c =
      (async_read, record { point = field_read (suc remaining); processor = p }, c)

  abbrev pub response_processed :
      ErrorCode × ErrorInfo × ExecuteProcessor → C → Yielded ExecuteOut × ExecuteOp × C
  response_processed (code, info, p) c =
      if failed code then complete_execute code info none p c else next_field p.field_count p c

  abbrev pub field_processed :
      ℕ → ErrorCode × ExecuteProcessor → C → Yielded ExecuteOut × ExecuteOp × C
  field_processed remaining (code, p) c =
      if failed code then complete_execute code [] none p c else next_field remaining p c

  abbrev pub resume_execute :
      ExecutePoint → ExecuteProcessor → List ℕ → C → Yielded ExecuteOut × ExecuteOp × C
  resume_execute at_start p buffer c =
      (async_write p.buffer, record { point = request_written; processor = p }, c)
  resume_execute request_written p buffer c =
      (async_read, record { point = response_read; processor = p }, c)
  resume_execute response_read p buffer c =
      response_processed (process_response (record p { buffer = buffer }) []) c
  resume_execute (field_read zero) p buffer c =
      field_processed 0 (process_field_definition (record p { buffer = buffer })) c
  resume_execute (field_read (suc remaining)) p buffer c =
      field_processed remaining (process_field_definition (record p { buffer = buffer })) c

  unfoldable pub execute_generic_op :
      ExecuteOp → ErrorCode → List ℕ → C → Yielded ExecuteOut × ExecuteOp × C
  execute_generic_op op code buffer c =
      if failed code
      then complete_execute code [] none op.processor c
      else resume_execute op.point op.processor buffer c

module _ {C : Type 0} (layer : MessageLayer C) where
  -- `async_execute_generic`, after `conditional_clear`: the constructor composes the request.
  unfoldable pub async_execute_generic :
      ℕ → DeserializeRowFn → {T : Type 0} → SerializationTraits T → T → C → Option (ExecuteOut × C)
  async_execute_generic fuel deserializer traits request c =
      run layer execute_generic_op fuel
        (record {
          point = at_start;
          processor = record (new_processor deserializer) {
            buffer = traits.serialize_ (layer.current_capabilities c) request;
          };
        })
        success [] (layer.reset_sequence_number c)

  -- What is compared: all but the error info.
  abbrev Same : Executed C → Option (ExecuteOut × C) → Type 0
  Same r o = (info : ErrorInfo) × (o ≡ some ((r.code, info, r.output), r.channel))

  -- The operation from the head of the loop on.
  abbrev driven : ℕ → ExecuteProcessor → List ℕ → C → Option (ExecuteOut × C)
  driven remaining p buffer c =
      perform layer (run layer execute_generic_op remaining) buffer (next_field remaining p c)

  read_fields-next_field :
      (remaining : ℕ) (p : ExecuteProcessor) (info : ErrorInfo) (buffer : List ℕ) (c : C)
      (r : Executed C)
      → read_fields layer remaining p info c ≡ some r
      → Same r (driven remaining p buffer c)
  unfolding read_fields run execute_generic_op
  read_fields-next_field zero p info buffer c r h =
      subst (λ s. Same s (some ((success, [], some (create_resultset p)), c)))
        (some_injective _ r h) ([], refl)
  read_fields-next_field (suc remaining) p info buffer c r h =
      let (((code, message), c'), read, h1) = >>=-eq-some (layer.read c) _ h in
      elim (Bool-cases (failed code)) [
        | inl e ↦
            let h2 = rw e at h1 in
            subst (λ s. Same s (driven (suc remaining) p buffer c)) (some_injective _ r h2)
              ([], rw (read, e) refl)
        | inr e ↦
            let h2 = rw e at h1 in
            let q = process_field_definition (record p { buffer = message }) in
            elim (Bool-cases (failed q.0)) [
              | inl e' ↦
                  let h3 = rw e' at h2 in
                  subst (λ s. Same s (driven (suc remaining) p buffer c)) (some_injective _ r h3)
                    ([], rw (read, e, e') refl)
              | inr e' ↦
                  let h3 = rw e' at h2 in
                  let (info', same) = read_fields-next_field remaining q.1 info message c' r h3 in
                  (info', rw (read, e, e') same)
            ]
      ]

  -- The operation from a point on.
  abbrev resumed :
      ℕ → ExecutePoint → ExecuteProcessor → ErrorCode → List ℕ → C → Option (ExecuteOut × C)
  resumed fuel point p code buffer c =
      run layer execute_generic_op fuel (record { point = point; processor = p }) code buffer c

  response_read-resumed :
      (p : ExecuteProcessor) (buffer : List ℕ) (c : C) (r : Executed C)
      → after_response layer (process_response (record p { buffer = buffer }) []) c ≡ some r
      → (fuel : ℕ) × Same r (resumed (suc fuel) response_read p success buffer c)
  unfolding run execute_generic_op
  response_read-resumed p buffer c r h =
      let q = process_response (record p { buffer = buffer }) [] in
      elim (Bool-cases (failed q.0)) [
        | inl e ↦
            let h' = rw e at h in
            (
              0,
              subst (λ s. Same s (resumed 1 response_read p success buffer c))
                  (some_injective _ r h') (q.1, rw e refl),
            )
        | inr e ↦
            let h' = rw e at h in
            let (info, same) = read_fields-next_field q.2.field_count q.2 q.1 buffer c r h' in
            (q.2.field_count, (info, rw e same))
      ]

  request_written-resumed :
      (p : ExecuteProcessor) (code : ErrorCode) (buffer : List ℕ) (c c' : C) (r : Executed C)
      → layer.read c ≡ some ((code, buffer), c')
      → (if failed code
          then stopped layer code [] c'
          else after_response layer (process_response (record p { buffer = buffer }) []) c')
        ≡ some r
      → (fuel : ℕ) × Same r (resumed (suc (suc fuel)) request_written p success [] c)
  unfolding run execute_generic_op
  request_written-resumed p code buffer c c' r received h = elim (Bool-cases (failed code)) [
    | inl e ↦
        let h' = rw e at h in
        (
          0,
          subst (λ s. Same s (resumed 2 request_written p success [] c)) (some_injective _ r h')
              ([], rw (received, e) refl),
        )
    | inr e ↦
        let h' = rw e at h in
        let (fuel, (info, same)) = response_read-resumed p buffer c' r h' in
        (fuel, (info, rw (received, e) (unfold run in unfold execute_generic_op in same)))
  ]

  -- The work behind the write of the request.
  abbrev answered : ExecuteProcessor → ErrorCode → C → Option (Executed C)
  answered p code c = if failed code then stopped layer code [] c else (do
    ((code', buffer), c') ← layer.read c
    if failed code'
        then stopped layer code' [] c'
        else after_response layer (process_response (record p { buffer = buffer }) []) c')

  at_start-resumed :
      (p : ExecuteProcessor) (code : ErrorCode) (c c' : C) (r : Executed C)
      → layer.write p.buffer c ≡ some (code, c')
      → answered p code c' ≡ some r
      → (fuel : ℕ) × Same r (resumed fuel at_start p success [] c)
  unfolding run execute_generic_op
  at_start-resumed p code c c' r sent h = elim (Bool-cases (failed code)) [
    | inl e ↦
        let h' = rw e at h in
        (
          2,
          subst (λ s. Same s (resumed 2 at_start p success [] c)) (some_injective _ r h')
              ([], rw (sent, e) refl),
        )
    | inr e ↦
        let h' = rw e at h in
        let (((code', buffer), c2), received, h2) = >>=-eq-some (layer.read c') _ h' in
        let (fuel, (info, same)) = request_written-resumed p code' buffer c' c2 r received h2 in
        (
          suc (suc (suc fuel)),
          (info, rw (sent, e) (unfold run in unfold execute_generic_op in same)),
        )
  ]

  -- When `execute_generic` returns, its asynchronous operation completes, after finitely many calls,
  -- with the same code and the same resultset and leaves the channel in the same state.
  pub execute_generic-run :
      {T : Type 0} (deserializer : DeserializeRowFn) (traits : SerializationTraits T) (request : T)
      (c : C) (r : Executed C)
      → execute_generic layer deserializer traits request [] c ≡ some r
      → (fuel : ℕ) × Same r (async_execute_generic fuel deserializer traits request c)
  unfolding execute_generic async_execute_generic
  execute_generic-run deserializer traits request c r h =
      let message = traits.serialize_ (layer.current_capabilities c) request in
      let ((code, c'), sent, h') =
        >>=-eq-some (layer.write message (layer.reset_sequence_number c)) _ h in
      at_start-resumed (record (new_processor deserializer) { buffer = message }) code
        (layer.reset_sequence_number c) c' r sent h'
