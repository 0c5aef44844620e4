-- ===== src/Serialization/Readers.antt =====
-- Readers, one after another: what holds of each holds of the sequence.
use mysql_asio.Base.{
  ℕ, ◌≤◌, ◌≡◌, inl, inr, sym, ap, ◌∙◌, Bool, true, false, List, [], ◌++◌, length, length-append,
  take, drop, take-append-drop, take-append_le, drop-append_le, append_assoc, arith, leb,
  if◌then◌else◌,
}
use mysql_asio.Base.Error.{
  Result, Result-cases, ok, err, ◌>>=◌, >>=-eq-ok, ErrorCode, make_error_code, incomplete_message,
}
use mysql_asio.Serialization.{DeserializationContext}

-- A reader: `deserialize_` of some type.
abbrev pub Reader : Type 0 → Type 0
Reader A = DeserializationContext → Result (A × DeserializationContext)

-- A successful read leaves a suffix of the context, and does the same in front of more bytes.
pub record IsLocal {A : Type 0} (read : Reader A) : Type 0 where
  pub split :
      (ctx : DeserializationContext) (a : A) (rest : DeserializationContext)
      → read ctx ≡ ok (a, rest)
      → (front : List ℕ) × (ctx ≡ front ++ rest)
  pub extends :
      (ctx more : DeserializationContext) (a : A) (rest : DeserializationContext)
      → read ctx ≡ ok (a, rest)
      → read (ctx ++ more) ≡ ok (a, rest ++ more)

-- A read that fails asks for more bytes.
abbrev pub FailsShort : {A : Type 0} → Reader A → Type 0
FailsShort read =
    (ctx : DeserializationContext) (e : ErrorCode)
    → read ctx ≡ err e
    → e ≡ make_error_code incomplete_message

-- A read of `n` bytes, whatever is then made of them.
abbrev pub take_read : {A : Type 0} (n : ℕ) (f : List ℕ → A) → Reader A
take_read n f ctx =
    if leb n (length ctx)
    then ok (f (take n ctx), drop n ctx)
    else err (make_error_code incomplete_message)

pub take_read_eq :
    {A : Type 0} (n : ℕ) (f : List ℕ → A) (ctx : DeserializationContext) (a : A)
    (rest : DeserializationContext)
    → take_read n f ctx ≡ ok (a, rest)
    → (n ≤ length ctx) × (f (take n ctx) ≡ a) × (drop n ctx ≡ rest)
take_read_eq n f ctx a rest h = ground arith

pub take_read-IsLocal : {A : Type 0} (n : ℕ) (f : List ℕ → A) → IsLocal (take_read n f)
take_read-IsLocal n f = record {
  split = λ ctx a rest h. (
    take n ctx,
    sym (take-append-drop n ctx) ∙ ap (λ l. take n ctx ++ l) (take_read_eq n f ctx a rest h).2,
  );
  extends = λ ctx more a rest h.
      let e = take_read_eq n f ctx a rest h in
      ground
        (arith, e, length-append ctx more, take-append_le n ctx more, drop-append_le n ctx more);
}

pub take_read-FailsShort : {A : Type 0} (n : ℕ) (f : List ℕ → A) → FailsShort (take_read n f)
take_read-FailsShort n f ctx e h = ground arith

pub return-IsLocal : {A : Type 0} (a : A) → IsLocal {A = A} (λ ctx. ok (a, ctx))
return-IsLocal a = record {
  split = λ ctx a' rest h. ([], ground arith);
  extends = λ ctx more a' rest h. ground arith;
}

-- One read after another.
abbrev pub bind_read : {A B : Type 0} → Reader A → (A → Reader B) → Reader B
bind_read read k ctx = read ctx >>= λ (a, rest). k a rest

pub bind_read-IsLocal :
    {A B : Type 0} (read : Reader A) (k : A → Reader B)
    → IsLocal read
    → ((a : A) → IsLocal (k a))
    → IsLocal (bind_read read k)
bind_read-IsLocal read k r s = record {
  split = λ ctx b rest h.
      let (p, e, e') = >>=-eq-ok (read ctx) (λ q. k q.0 q.1) h in
      let (front, c) = r.split ctx p.0 p.1 e in
      let (middle, d) = (s p.0).split p.1 b rest e' in
      (front ++ middle, c ∙ ap (λ l. front ++ l) d ∙ sym (append_assoc front middle rest));
  extends = λ ctx more b rest h.
      let (p, e, e') = >>=-eq-ok (read ctx) (λ q. k q.0 q.1) h in
      rw (r.extends ctx more p.0 p.1 e) ((s p.0).extends p.1 more b rest e');
}

pub bind_read-FailsShort :
    {A B : Type 0} (read : Reader A) (k : A → Reader B)
    → FailsShort read
    → ((a : A) → FailsShort (k a))
    → FailsShort (bind_read read k)
bind_read-FailsShort read k r s ctx e h = elim (Result-cases (read ctx)) [
  | inl (p, q) ↦ s p.0 p.1 e (rw q at h)
  | inr (c, q) ↦ let h' = rw q at h in let same : c ≡ e = cc h' in r ctx e (q ∙ ap err same)
]

pub if-IsLocal :
    {A : Type 0} (t : Bool) {r s : Reader A}
    → IsLocal r
    → IsLocal s
    → IsLocal (λ ctx. if t then r ctx else s ctx)
if-IsLocal true hr hs = hr
if-IsLocal false hr hs = hs
