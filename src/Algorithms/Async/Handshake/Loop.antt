-- ===== src/Algorithms/Async/Handshake/Loop.antt =====
-- The rounds of authentication: the loop of `handshake_op` against that of `handshake`.
use mysql_asio.Base.{
  ℕ, zero, suc, ◌≡◌, refl, subst, true, false, List, [], Option, none, some, Bool-cases, ◌⊎◌, inl,
  inr, if◌then◌else◌,
}
use mysql_asio.Base.Error.{ErrorCode, ErrorInfo, failed}
use mysql_asio.Auth.Digest.{Digests}
use mysql_asio.Algorithms.{MessageLayer, ◌>>=◌, >>=-eq-some, some_injective}
use mysql_asio.Algorithms.Handshake.Processor.{
  AuthResult, complete, send_more_data, wait_for_ok, invalid, HandshakeProcessor, ServerResponse,
  process_handshake_server_response,
}
use mysql_asio.Algorithms.Handshake.{Handshaken, done, next_round, after_answer, auth_loop}
use mysql_asio.Algorithms.Async.{async_read, perform}
use mysql_asio.Algorithms.Async.Handshake.{
  HandshakePoint, answer_read, HandshakeOp, HandshakeOut, Resumed, answer_kept, handshake_op,
  run_handshake,
}
use mysql_asio.Algorithms.Async.Handshake.Answered.{response_with_info}

module _ (digests : Digests) {C : Type 0} (layer : MessageLayer C) where
  -- The operation ends with the code of `r`, and after a success with its channel: after an error the
  -- operation may have set the channel's capabilities.
  abbrev pub Ends : Handshaken C → Option (HandshakeOut × C) → Type 0
  Ends r o =
      (info : Option ErrorInfo) × (c : C) × (o ≡ some ((r.code, info), c))
      × ((failed r.code ≡ true) ⊎ (c ≡ r.channel))

  -- A synchronous end that is an error.
  pub failed-Ends :
      (code : ErrorCode) (message : ErrorInfo) (c c' : C) (r : Handshaken C)
      (info : Option ErrorInfo) (o : Option (HandshakeOut × C))
      → failed code ≡ true
      → done code message c ≡ some r
      → o ≡ some ((code, info), c')
      → Ends r o
  failed-Ends code message c c' r info o e h ended =
      subst (λ (s : Handshaken C). Ends s o) (some_injective _ r h) (info, c', ended, inl e)

  -- What is started, performed, with the calls that are left.
  abbrev pub resumed : ℕ → List ℕ → Resumed digests layer → Option (HandshakeOut × C)
  resumed calls buffer started =
      started >>= perform layer (run_handshake digests layer calls) buffer

  abbrev pub holding : HandshakePoint → HandshakeProcessor → AuthResult → HandshakeOp
  holding point p outcome = record { point = point; processor = p; auth_state = outcome }

  abbrev awaiting : ℕ → HandshakeProcessor → AuthResult → List ℕ → C → Option (HandshakeOut × C)
  awaiting calls p outcome buffer c =
      perform layer (run_handshake digests layer calls) buffer
        (async_read, holding answer_read p outcome, c)

  abbrev pub Goes : ℕ → Type 0
  Goes fuel =
      (p : HandshakeProcessor) (outcome : AuthResult) (info : ErrorInfo) (buffer : List ℕ) (c : C)
      (r : Handshaken C)
      → auth_loop digests layer fuel p outcome info c ≡ some r
      → (calls : ℕ) × Ends r (awaiting calls p outcome buffer c)

  -- Behind an answer without an error.
  kept-Ends :
      (fuel : ℕ) (result : AuthResult) (q : ServerResponse) (buffer : List ℕ) (c : C)
      (r : Handshaken C)
      → Goes fuel
      → next_round digests layer (auth_loop digests layer fuel) result q c ≡ some r
      → (calls : ℕ) × Ends r (
          resumed calls buffer
            (answer_kept digests layer (holding answer_read q.processor result) q.buffer result c))
  unfolding run_handshake handshake_op
  kept-Ends fuel complete q buffer c r goes h = (
    0,
    subst
        (λ s. Ends s (
          resumed 0 buffer (
            answer_kept digests layer (holding answer_read q.processor complete) q.buffer complete
              c)))
        (some_injective _ r h) (some [], _, refl, inr refl),
  )
  kept-Ends fuel wait_for_ok q buffer c r goes h = goes q.processor wait_for_ok q.info buffer c r h
  kept-Ends fuel invalid q buffer c r goes h = goes q.processor invalid q.info buffer c r h
  kept-Ends fuel send_more_data q buffer c r goes h =
      let ((code, c'), sent, h') = >>=-eq-some (layer.write q.buffer c) _ h in
      elim (Bool-cases (failed code)) [
        | inl e ↦ (1, failed-Ends code q.info c' c' r none _ e (rw e at h') (rw (sent, e) refl))
        | inr e ↦
            let (calls, ends) = goes q.processor send_more_data q.info buffer c' r (rw e at h') in
            (suc calls, rw (sent, e) ends)
      ]

  -- An answer, read without an error.
  answered-Ends :
      (fuel : ℕ) (p : HandshakeProcessor) (outcome : AuthResult) (info told : ErrorInfo)
      (message : List ℕ) (c : C) (code : ErrorCode) (q : ServerResponse) (r : Handshaken C)
      → Goes fuel
      → failed code ≡ false
      → process_handshake_server_response digests p message outcome []
        ≡ some (record q { info = told })
      → after_answer digests layer (auth_loop digests layer fuel) q c ≡ some r
      → (calls : ℕ) × Ends r
          (run_handshake digests layer (suc calls) (holding answer_read p outcome) code message c)
  unfolding run_handshake handshake_op
  answered-Ends fuel p outcome info told message c code q r goes e processed h =
      elim (Bool-cases (failed q.code)) [
        | inl e' ↦ (
          0,
          failed-Ends q.code q.info c (layer.set_current_capabilities q.processor.negotiated_caps c)
              r (some told) _ e' (rw e' at h) (rw (e, processed, e') refl),
        )
        | inr e' ↦
            let (calls, ends) = kept-Ends fuel q.result q message c r goes (rw e' at h) in
            (calls, rw (e, processed, e') ends)
      ]

  answer_received-Ends :
      (fuel : ℕ) (p : HandshakeProcessor) (outcome : AuthResult) (info : ErrorInfo)
      (buffer message : List ℕ) (c c' : C) (code : ErrorCode) (r : Handshaken C)
      → Goes fuel
      → layer.read c ≡ some ((code, message), c')
      → (if failed code
          then done code info c'
          else (process_handshake_server_response digests p message outcome info >>= λ q.
              after_answer digests layer (auth_loop digests layer fuel) q c'))
        ≡ some r
      → (calls : ℕ) × Ends r (awaiting calls p outcome buffer c)
  unfolding run_handshake handshake_op
  answer_received-Ends fuel p outcome info buffer message c c' code r goes received h =
      elim (Bool-cases (failed code)) [
        | inl e ↦ (1, failed-Ends code info c' c' r none _ e (rw e at h) (rw (received, e) refl))
        | inr e ↦
            let (q, processed, h') =
              >>=-eq-some (process_handshake_server_response digests p message outcome info) _
                (rw e at h) in
            let (told, again) = response_with_info digests p message outcome info [] q processed in
            let (calls, ends) =
              answered-Ends fuel p outcome info told message c' code q r goes e again h' in
            (suc calls, rw received ends)
      ]

  pub auth_loop-Ends : (fuel : ℕ) → Goes fuel
  unfolding auth_loop
  auth_loop-Ends zero p outcome info buffer c r h = cc
  auth_loop-Ends (suc fuel) p outcome info buffer c r h =
      let (((code, message), c'), received, h') = >>=-eq-some (layer.read c) _ h in
      answer_received-Ends fuel p outcome info buffer message c c' code r (auth_loop-Ends fuel)
        received h'
