-- ===== src/Serialization/Consumed.antt =====
-- Reads stay inside the context, look at nothing behind what they take, and fail in one way only.
use mysql_asio.Base.{
  ℕ, ◌^◌, ◌≡◌, inl, inr, refl, sym, ap, ◌∙◌, List, [], ◌∷◌, ◌++◌, append_assoc, arith, ◌==◌,
  if◌then◌else◌, Bool-cases,
}
use mysql_asio.Base.Bytes.{from_le}
use mysql_asio.Base.Int.{from_pattern}
use mysql_asio.Base.Error.{Result-cases, ok, err, ◌>>=◌, >>=-eq-ok}
use mysql_asio.Serialization.{
  FixedInt, int1, int2, int3, int8, FieldType, fixed_int, signed_int, enumeration, int_lenenc,
  string_null, string_eof, string_lenenc, string_fixed, get_int_size, DeserializationContext,
  deserialize_fixed_int, deserialize_signed_int, deserialize_int_lenenc, deserialize_string_null,
  deserialize_string_lenenc, deserialize_string_fixed, deserialize_string_eof, deserialize_field,
  deserialize,
}
use mysql_asio.Serialization.Shape.{IsDelimited}
use mysql_asio.Serialization.Readers.{
  Reader, IsLocal, FailsShort, take_read, take_read-IsLocal, take_read-FailsShort, return-IsLocal,
  bind_read, bind_read-IsLocal, bind_read-FailsShort, if-IsLocal,
}

-- What the readers of serialization.hpp are, one by one.
fixed_int-IsLocal : (t : FixedInt) → IsLocal (deserialize_fixed_int t)
unfolding deserialize_fixed_int
fixed_int-IsLocal t = take_read-IsLocal (get_int_size t) from_le

fixed_int-FailsShort : (t : FixedInt) → FailsShort (deserialize_fixed_int t)
unfolding deserialize_fixed_int
fixed_int-FailsShort t = take_read-FailsShort (get_int_size t) from_le

-- The reader that follows the first byte of an `int_lenenc`.
abbrev pub lenenc_tail : ℕ → Reader ℕ
lenenc_tail b rest =
    if b == 0xfc
    then deserialize_fixed_int int2 rest
    else if b == 0xfd
    then deserialize_fixed_int int3 rest
    else if b == 0xfe
    then deserialize_fixed_int int8 rest
    else ok (b, rest)

pub int_lenenc_eq :
    (ctx : DeserializationContext)
    → deserialize_int_lenenc ctx ≡ bind_read (deserialize_fixed_int int1) lenenc_tail ctx
unfolding deserialize_int_lenenc
int_lenenc_eq ctx = refl

lenenc_tail-IsLocal : (b : ℕ) → IsLocal (lenenc_tail b)
lenenc_tail-IsLocal b = if-IsLocal (b == 0xfc) (fixed_int-IsLocal int2) (
    if-IsLocal (b == 0xfd) (fixed_int-IsLocal int3)
      (if-IsLocal (b == 0xfe) (fixed_int-IsLocal int8) (return-IsLocal b)))

lenenc_tail-FailsShort : (b : ℕ) → FailsShort (lenenc_tail b)
lenenc_tail-FailsShort b ctx e h = ground (
  arith,
  fixed_int-FailsShort int2 ctx e,
  fixed_int-FailsShort int3 ctx e,
  fixed_int-FailsShort int8 ctx e,
)

int_lenenc-IsLocal : IsLocal deserialize_int_lenenc
unfolding deserialize_int_lenenc
int_lenenc-IsLocal =
    bind_read-IsLocal (deserialize_fixed_int int1) lenenc_tail (fixed_int-IsLocal int1)
      lenenc_tail-IsLocal

int_lenenc-FailsShort : FailsShort deserialize_int_lenenc
unfolding deserialize_int_lenenc
int_lenenc-FailsShort =
    bind_read-FailsShort (deserialize_fixed_int int1) lenenc_tail (fixed_int-FailsShort int1)
      lenenc_tail-FailsShort

-- `string_null` is a read of one byte that goes on unless it is the terminator.
string_null_step :
    (b : ℕ) (rest : DeserializationContext)
    → deserialize_string_null (b ∷ rest) ≡ (
        if b == 0
        then ok ([], rest)
        else (deserialize_string_null rest >>= λ (s, behind). ok (b ∷ s, behind)))
unfolding deserialize_string_null
string_null_step b rest = refl

string_null_split :
    (ctx : DeserializationContext) (s : List ℕ) (rest : DeserializationContext)
    → deserialize_string_null ctx ≡ ok (s, rest)
    → ctx ≡ s ++ 0 ∷ rest
unfolding deserialize_string_null
string_null_split [] s rest h = cc
string_null_split (b ∷ ctx) s rest h = elim (Bool-cases (b == 0)) [
  | inl e ↦ ground (arith, rw e at h)
  | inr e ↦
      let (p, q, q') =
        >>=-eq-ok (deserialize_string_null ctx) (λ p. ok (b ∷ p.0, p.1)) (rw e at h) in
      ground (arith, string_null_split ctx p.0 p.1 q, q')
]

string_null_fails : FailsShort deserialize_string_null
unfolding deserialize_string_null
string_null_fails [] e h = cc
string_null_fails (b ∷ ctx) e h = elim (Result-cases (deserialize_string_null ctx)) [
  | inl (p, q) ↦ ground (arith, rw q at h)
  | inr (c, q) ↦ let h' = rw q at h in string_null_fails ctx e (q ∙ ap err (ground (arith, h')))
]

string_null_extends :
    (ctx more : DeserializationContext) (s : List ℕ) (rest : DeserializationContext)
    → deserialize_string_null ctx ≡ ok (s, rest)
    → deserialize_string_null (ctx ++ more) ≡ ok (s, rest ++ more)
unfolding deserialize_string_null
string_null_extends [] more s rest h = cc
string_null_extends (b ∷ ctx) more s rest h = elim (Bool-cases (b == 0)) [
  | inl e ↦ ground (arith, rw e at h)
  | inr e ↦
      let (p, q, q') =
        >>=-eq-ok (deserialize_string_null ctx) (λ p. ok (b ∷ p.0, p.1)) (rw e at h) in
      rw (e, string_null_extends ctx more p.0 p.1 q) (ground (arith, q'))
]

string_null-IsLocal : IsLocal deserialize_string_null
string_null-IsLocal = record {
  split = λ ctx s rest h.
      (s ++ (0 ∷ []), string_null_split ctx s rest h ∙ sym (append_assoc s (0 ∷ []) rest));
  extends = string_null_extends;
}

field-IsLocal : (t : FieldType) → IsDelimited t → IsLocal (deserialize_field t)
unfolding deserialize_field deserialize_signed_int deserialize_string_lenenc
    deserialize_string_fixed
field-IsLocal (fixed_int t) d = fixed_int-IsLocal t
field-IsLocal (signed_int t) d =
    bind_read-IsLocal (deserialize_fixed_int t)
      (λ w ctx. ok (from_pattern (256 ^ get_int_size t) w, ctx)) (fixed_int-IsLocal t)
      (λ w. return-IsLocal _)
field-IsLocal (enumeration t) d = fixed_int-IsLocal t
field-IsLocal int_lenenc d = int_lenenc-IsLocal
field-IsLocal string_null d = string_null-IsLocal
field-IsLocal string_eof d = elim d [ ]
field-IsLocal string_lenenc d =
    bind_read-IsLocal deserialize_int_lenenc (λ len. take_read len (λ l. l)) int_lenenc-IsLocal
      (λ len. take_read-IsLocal len (λ l. l))
field-IsLocal (string_fixed n) d = take_read-IsLocal n (λ l. l)

field-FailsShort : (t : FieldType) → FailsShort (deserialize_field t)
unfolding deserialize_field deserialize_signed_int deserialize_string_lenenc
    deserialize_string_fixed deserialize_string_eof
field-FailsShort (fixed_int t) = fixed_int-FailsShort t
field-FailsShort (signed_int t) =
    bind_read-FailsShort (deserialize_fixed_int t)
      (λ w ctx. ok (from_pattern (256 ^ get_int_size t) w, ctx)) (fixed_int-FailsShort t)
      (λ w ctx e h. cc)
field-FailsShort (enumeration t) = fixed_int-FailsShort t
field-FailsShort int_lenenc = int_lenenc-FailsShort
field-FailsShort string_null = string_null_fails
field-FailsShort string_eof = λ ctx e h. cc
field-FailsShort string_lenenc =
    bind_read-FailsShort deserialize_int_lenenc (λ len. take_read len (λ l. l))
      int_lenenc-FailsShort (λ len. take_read-FailsShort len (λ l. l))
field-FailsShort (string_fixed n) = take_read-FailsShort n (λ l. l)

abbrev pub AllDelimited : List FieldType → Type 0
AllDelimited [] = Unit {0}
AllDelimited (t ∷ ts) = IsDelimited t × AllDelimited ts

pub deserialize-IsLocal : (ts : List FieldType) → AllDelimited ts → IsLocal (deserialize ts)
unfolding deserialize
deserialize-IsLocal [] d = return-IsLocal tt
deserialize-IsLocal (t ∷ ts) (d, ds) =
    bind_read-IsLocal (deserialize_field t)
      (λ v. bind_read (deserialize ts) (λ vs ctx. ok ((v, vs), ctx))) (field-IsLocal t d)
      (λ v.
        bind_read-IsLocal (deserialize ts) (λ vs ctx. ok ((v, vs), ctx)) (deserialize-IsLocal ts ds)
          (λ vs. return-IsLocal _))

pub deserialize-FailsShort : (ts : List FieldType) → FailsShort (deserialize ts)
unfolding deserialize
deserialize-FailsShort [] = λ ctx e h. cc
deserialize-FailsShort (t ∷ ts) =
    bind_read-FailsShort (deserialize_field t)
      (λ v. bind_read (deserialize ts) (λ vs ctx. ok ((v, vs), ctx))) (field-FailsShort t)
      (λ v.
        bind_read-FailsShort (deserialize ts) (λ vs ctx. ok ((v, vs), ctx))
          (deserialize-FailsShort ts) (λ vs ctx e h. cc))

-- For every list of delimited types: a `deserialize` that fails answers `incomplete_message`; what one
-- that succeeds leaves is a suffix of the bytes it was given, and with more bytes behind them it reads
-- the same values and leaves those bytes too.
pub deserialize_reads :
    (ts : List FieldType) → AllDelimited ts → FailsShort (deserialize ts) × IsLocal (deserialize ts)
deserialize_reads ts d = (deserialize-FailsShort ts, deserialize-IsLocal ts d)
