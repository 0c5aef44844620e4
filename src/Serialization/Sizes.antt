-- ===== src/Serialization/Sizes.antt =====
-- The fixed strings that are read have their sizes.
use mysql_asio.Base.{ℕ, ◌≡◌, sym, ap, ◌∙◌, subst, List, [], ◌∷◌, length, length-take, arith}
use mysql_asio.Base.Error.{ok, ◌>>=◌, >>=-eq-ok}
use mysql_asio.Serialization.{
  FieldType, fixed_int, signed_int, enumeration, int_lenenc, string_null, string_eof, string_lenenc,
  string_fixed, Value, Values, DeserializationContext, deserialize_field, deserialize,
  deserialize_string_fixed,
}
use mysql_asio.Serialization.Readers.{take_read_eq}
use mysql_asio.Serialization.Shape.{HasShape, AllHaveShape}

-- What a result holds.
pub ok_injective : {A : Type 0} (a b : A) → ok a ≡ ok b → a ≡ b
ok_injective a b h = cc

string_fixed_size :
    (n : ℕ) (ctx v rest : List ℕ) → deserialize_string_fixed n ctx ≡ ok (v, rest) → length v ≡ n
unfolding deserialize_string_fixed
string_fixed_size n ctx v rest h =
    let (l, e, _) = take_read_eq n (λ l. l) ctx v rest h in
    ap length (sym e) ∙ omega (arith, length-take n ctx)

field_shape :
    (t : FieldType) (ctx : DeserializationContext) (v : Value t) (rest : DeserializationContext)
    → deserialize_field t ctx ≡ ok (v, rest)
    → HasShape t v
unfolding deserialize_field
field_shape (fixed_int t) ctx v rest h = tt
field_shape (signed_int t) ctx v rest h = tt
field_shape (enumeration t) ctx v rest h = tt
field_shape int_lenenc ctx v rest h = tt
field_shape string_null ctx v rest h = tt
field_shape string_eof ctx v rest h = tt
field_shape string_lenenc ctx v rest h = tt
field_shape (string_fixed n) ctx v rest h = string_fixed_size n ctx v rest h

pub deserialize-AllHaveShape :
    (ts : List FieldType) (ctx : DeserializationContext) (vs : Values ts)
    (rest : DeserializationContext)
    → deserialize ts ctx ≡ ok (vs, rest)
    → AllHaveShape ts vs
unfolding deserialize
deserialize-AllHaveShape [] ctx vs rest h = tt
deserialize-AllHaveShape (t ∷ ts) ctx vs rest h =
    let ((first, behind), e, h') =
      >>=-eq-ok (deserialize_field t ctx)
        (λ (first, behind). deserialize ts behind >>= λ (tail, last). ok ((first, tail), last)) h in
    let ((tail, last), e', h'') =
      >>=-eq-ok (deserialize ts behind) (λ (tail, last). ok ((first, tail), last)) h' in
    subst (AllHaveShape (t ∷ ts))
      (ap (λ p. p.0) (ok_injective ((first, tail), last) (vs, rest) h''))
      (field_shape t ctx first behind e, deserialize-AllHaveShape ts behind tail last e')
