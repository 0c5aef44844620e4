-- ===== src/Algorithms/Connection/Laws.antt =====
-- The stream behind the end of a connection, and behind a connection that failed.
use mysql_asio.Base.{
  ◌⊎◌, ℕ, ◌≡◌, refl, subst, true, false, Option, none, some, Bool-cases, inl, inr,
}
use mysql_asio.Base.Error.{ErrorCode, ErrorInfo, success, failed}
use mysql_asio.Auth.Digest.{Digests}
use mysql_asio.Algorithms.{MessageLayer, ◌>>=◌}
use mysql_asio.Algorithms.Handshake.Params.{ConnectionParams}
use mysql_asio.Algorithms.Handshake.{Handshaken, handshake}
use mysql_asio.Algorithms.Connection.{
  physical_connect_failed, quit_connection, close_connection, closed_on_error, connect,
}

module _ {C : Type 0} (layer : MessageLayer C) where
  -- `close` closes a stream, also when it returns an error.
  abbrev pub Closes : Type 0
  Closes = (c : C) → layer.is_open (layer.close c).1 ≡ false

  -- The code that is told: the error of the quit message comes first.
  abbrev pub ToldFirst : ErrorCode → ErrorCode → ErrorCode → Type 0
  ToldFirst code quit_code close_code =
      ((failed quit_code ≡ true) × (code ≡ quit_code))
      ⊎ ((failed quit_code ≡ false) × (code ≡ close_code))

  -- What becomes of a stream that was not open, and of one that was.
  abbrev pub LeftAlone : C → ErrorCode → C → Type 0
  LeftAlone c code c' = (layer.is_open c ≡ false) × (code ≡ success) × (c' ≡ c)

  abbrev pub ClosedAfter : C → ErrorCode × C → ErrorCode → C → Type 0
  ClosedAfter c quit code c' =
      (layer.is_open c ≡ true)
      × (c' ≡ (layer.close quit.1).1)
      × ToldFirst code quit.0 (layer.close quit.1).0

  -- If the write of the quit message ends, with an error or without, the stream is not open after
  -- `close_connection`. A stream that was not open is left alone without an error. One that was open
  -- is closed behind the write, and the code is the error of the write if there is one, and else the
  -- code of the closing.
  pub close_connection-closed :
      (c : C) (quit : ErrorCode × C)
      → Closes
      → quit_connection layer c ≡ some quit
      → (code : ErrorCode) × (c' : C) × (close_connection layer c ≡ some (code, c'))
        × (layer.is_open c' ≡ false)
        × (LeftAlone c code c' ⊎ ClosedAfter c quit code c')
  unfolding close_connection
  close_connection-closed c (code, c') closes h = elim (Bool-cases (layer.is_open c)) [
    | inl e ↦ elim (Bool-cases (failed code)) [
      | inl e' ↦
          (code, (layer.close c').1, rw (e, h, e') refl, closes c', inr (e, refl, inl (e', refl)))
      | inr e' ↦ (
        (layer.close c').0,
        (layer.close c').1,
        rw (e, h, e') refl,
        closes c',
        inr (e, refl, inr (e', refl)),
      )
    ]
    | inr e ↦ (success, c, rw e refl, e, inl (e, refl, refl))
  ]

  abbrev ClosedIfFailed : Handshaken C → Type 0
  ClosedIfFailed r = failed r.code ≡ true → layer.is_open r.channel ≡ false

  returned :
      (s r : Handshaken C)
      → ClosedIfFailed s
      → Path (Option (Handshaken C)) (some s) (some r)
      → ClosedIfFailed r
  returned s r h e =
      subst (λ (o : Option (Handshaken C)). elim o [ none ↦ Unit | some t ↦ ClosedIfFailed t ]) e h

  closed_on_error-closed :
      (m : Option (Handshaken C)) (r : Handshaken C)
      → Closes
      → (m >>= closed_on_error layer) ≡ some r
      → ClosedIfFailed r
  closed_on_error-closed none r closes h = cc
  closed_on_error-closed (some s) r closes h = elim (Bool-cases (failed s.code)) [
    | inl e ↦
        let h' = rw e at h in
        returned (record s { channel = (layer.close s.channel).1 }) r (λ _. closes s.channel) h'
    | inr e ↦ let h' = rw e at h in returned s r (λ e'. cc) h'
  ]

  -- When `connect` returns with an error, the physical connection's or the handshake's, the stream is
  -- closed.
  pub connect-closed :
      (digests : Digests) (connect_stream : C → ErrorCode × C) (fuel : ℕ)
      (params : ConnectionParams) (info : ErrorInfo) (c : C) (r : Handshaken C)
      → Closes
      → connect layer digests connect_stream fuel params info c ≡ some r
      → failed r.code ≡ true
      → layer.is_open r.channel ≡ false
  unfolding connect
  connect-closed digests connect_stream fuel params info c r closes h =
      elim (Bool-cases (failed (connect_stream c).0)) [
        | inl e ↦
            let h' = rw e at h in
            returned
              (record {
                code = (connect_stream c).0;
                info = physical_connect_failed;
                channel = (layer.close (connect_stream c).1).1;
              })
              r (λ _. closes (connect_stream c).1) h'
        | inr e ↦
            let h' = rw e at h in
            closed_on_error-closed (handshake digests layer fuel params info (connect_stream c).1) r
              closes h'
      ]
