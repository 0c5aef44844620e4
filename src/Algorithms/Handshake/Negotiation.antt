-- ===== src/Algorithms/Handshake/Negotiation.antt =====
-- What the capabilities are after a greeting that is accepted.
use mysql_asio.Base.{
  ℕ, ◌≡◌, refl, sym, ap, subst, ◌∙◌, Bool, true, false, not, bit_and, ◌≢◌, ≢→==, ==_refl, ==-cases,
  Bool-cases, inl, inr, arith,
}
use mysql_asio.Base.Bits.{bit_and_assoc, bit_and-zero, bit_and_idem}
use mysql_asio.Base.Error.{ErrorCode, success}
use mysql_asio.Capabilities.{
  has, has_all, mandatory_capabilities, client_ssl, client_connect_with_db,
}
use mysql_asio.Messages.Handshake.{HandshakePacket}
use mysql_asio.Algorithms.Handshake.Processor.{
  HandshakeProcessor, use_ssl, is_empty, required_capabilities, wanted_capabilities,
  process_capabilities,
}
use mysql_asio.Algorithms.Handshake.Params.{SslMode, disable, enable, require, ConnectionParams}

-- TLS is used by the mode, and by what the server can.
abbrev pub tls_expected : SslMode → Bool → Bool
tls_expected disable offered = false
tls_expected enable offered = offered
tls_expected require offered = true

abbrev pub Negotiated : ConnectionParams → HandshakePacket → HandshakeProcessor → Type 0
Negotiated params handshake p =
    (has_all handshake.capability_flags p.negotiated_caps ≡ true)
    × (has_all p.negotiated_caps mandatory_capabilities ≡ true)
    × (has p.negotiated_caps client_connect_with_db ≡ not (is_empty params.database))
    × (use_ssl p ≡ tls_expected params.ssl (has handshake.capability_flags client_ssl))

-- A flag that the mask has and the server must have is there,
kept :
    (s required wanted flag : ℕ)
    → bit_and s required ≡ required
    → bit_and wanted flag ≡ flag
    → bit_and required flag ≡ flag
    → bit_and (bit_and s wanted) flag ≡ flag
kept s required wanted flag h w r =
    bit_and_assoc s wanted flag
    ∙ ap (bit_and s) (w ∙ sym r)
    ∙ sym (bit_and_assoc s required flag)
    ∙ ap (λ k. bit_and k flag) h
    ∙ r

-- and a flag that the mask has not is not there.
dropped : (s wanted flag : ℕ) → bit_and wanted flag ≡ 0 → bit_and (bit_and s wanted) flag ≡ 0
dropped s wanted flag w = bit_and_assoc s wanted flag ∙ ap (bit_and s) w ∙ bit_and-zero s

has-kept :
    (s required wanted flag : ℕ)
    → flag ≢ 0
    → bit_and s required ≡ required
    → bit_and wanted flag ≡ flag
    → bit_and required flag ≡ flag
    → has (bit_and s wanted) flag ≡ true
unfolding has
has-kept s required wanted flag nonzero h w r =
    rw (kept s required wanted flag h w r, ≢→== flag 0 nonzero) refl

has-dropped : (s wanted flag : ℕ) → bit_and wanted flag ≡ 0 → has (bit_and s wanted) flag ≡ false
unfolding has
has-dropped s wanted flag w = rw (dropped s wanted flag w) refl

has-offered :
    (s wanted flag : ℕ) → bit_and wanted flag ≡ flag → has (bit_and s wanted) flag ≡ has s flag
unfolding has
has-offered s wanted flag w = rw (bit_and_assoc s wanted flag, w) refl

has_all-within : (s wanted : ℕ) → has_all s (bit_and s wanted) ≡ true
unfolding has_all
has_all-within s wanted =
    rw (sym (bit_and_assoc s s wanted), bit_and_idem s) (==_refl (bit_and s wanted))

has_all-kept :
    (s required wanted flags : ℕ)
    → bit_and s required ≡ required
    → bit_and wanted flags ≡ flags
    → bit_and required flags ≡ flags
    → has_all (bit_and s wanted) flags ≡ true
unfolding has_all
has_all-kept s required wanted flags h w r = rw (kept s required wanted flags h w r) (==_refl flags)

has_all-eq : (s required : ℕ) → has_all s required ≡ true → bit_and s required ≡ required
unfolding has_all
has_all-eq s required h = elim (==-cases (bit_and s required) required) [
  | inl (e, test) ↦ e
  | inr (e, test) ↦ cc
]

-- By the mode, and by whether there is a database.
by_mode :
    (ssl : SslMode) (no_database : Bool) (s : ℕ)
    → bit_and s (required_capabilities ssl no_database) ≡ required_capabilities ssl no_database
    → (has_all (bit_and s (wanted_capabilities ssl no_database)) mandatory_capabilities ≡ true)
      × (has (bit_and s (wanted_capabilities ssl no_database)) client_connect_with_db
          ≡ not no_database)
      × (has (bit_and s (wanted_capabilities ssl no_database)) client_ssl
          ≡ tls_expected ssl (has s client_ssl))
by_mode disable true s h = (
  has_all-kept s _ _ mandatory_capabilities h refl refl,
  has-dropped s _ client_connect_with_db refl,
  has-dropped s _ client_ssl refl,
)
by_mode disable false s h = (
  has_all-kept s _ _ mandatory_capabilities h refl refl,
  has-kept s _ _ client_connect_with_db (omega arith) h refl refl,
  has-dropped s _ client_ssl refl,
)
by_mode enable true s h = (
  has_all-kept s _ _ mandatory_capabilities h refl refl,
  has-dropped s _ client_connect_with_db refl,
  has-offered s _ client_ssl refl,
)
by_mode enable false s h = (
  has_all-kept s _ _ mandatory_capabilities h refl refl,
  has-kept s _ _ client_connect_with_db (omega arith) h refl refl,
  has-offered s _ client_ssl refl,
)
by_mode require true s h = (
  has_all-kept s _ _ mandatory_capabilities h refl refl,
  has-dropped s _ client_connect_with_db refl,
  has-kept s _ _ client_ssl (omega arith) h refl refl,
)
by_mode require false s h = (
  has_all-kept s _ _ mandatory_capabilities h refl refl,
  has-kept s _ _ client_connect_with_db (omega arith) h refl refl,
  has-kept s _ _ client_ssl (omega arith) h refl refl,
)

-- When the greeting's capabilities are accepted, those negotiated are all the server's, hold the
-- mandatory ones, hold CLIENT_CONNECT_WITH_DB just when a database is named, and TLS is used never with
-- ssl_mode::disable, always with require, and with enable just when the server offers it.
pub process_capabilities-Negotiated :
    (p : HandshakeProcessor) (handshake : HandshakePacket) (p' : HandshakeProcessor)
    → process_capabilities p handshake ≡ (success, p')
    → Negotiated p.params handshake p'
unfolding process_capabilities
process_capabilities-Negotiated p handshake p' h =
    let required = required_capabilities p.params.ssl (is_empty p.params.database) in
    elim (Bool-cases (has_all handshake.capability_flags required)) [
      | inl e ↦
          let h' = rw e at h in
          let s = handshake.capability_flags in
          let no_database = is_empty p.params.database in
          let (mandatory, database, tls) =
            by_mode p.params.ssl no_database s (has_all-eq s required e) in
          subst (λ q. Negotiated p.params handshake q)
            (ap (λ (r : ErrorCode × HandshakeProcessor). r.1) h')
            (
              has_all-within s (wanted_capabilities p.params.ssl no_database),
              mandatory,
              database,
              unfold use_ssl in tls,
            )
      | inr e ↦ let h' = rw e at h in cc
    ]
