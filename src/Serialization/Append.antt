-- ===== src/Serialization/Append.antt =====
-- Two calls of `serialize` one after the other write what one call on all the fields does.
use mysql_asio.Base.{◌+◌, ◌≡◌, refl, ap, ◌∙◌, List, [], ◌∷◌, ◌++◌, append_assoc, arith}
use mysql_asio.Serialization.{FieldType, Values, serialize_field, serialize, get_size}

abbrev pub append_values : (ts us : List FieldType) → Values ts → Values us → Values (ts ++ us)
append_values [] us vs ws = ws
append_values (t ∷ ts) us (v, vs) ws = (v, append_values ts us vs ws)

pub serialize-append :
    (ts us : List FieldType) (vs : Values ts) (ws : Values us)
    → serialize ts vs ++ serialize us ws ≡ serialize (ts ++ us) (append_values ts us vs ws)
unfolding serialize
serialize-append [] us vs ws = refl
serialize-append (t ∷ ts) us (v, vs) ws =
    append_assoc (serialize_field t v) (serialize ts vs) (serialize us ws)
    ∙ ap (λ l. serialize_field t v ++ l) (serialize-append ts us vs ws)

pub get_size-append :
    (ts us : List FieldType) (vs : Values ts) (ws : Values us)
    → get_size ts vs + get_size us ws ≡ get_size (ts ++ us) (append_values ts us vs ws)
unfolding get_size
get_size-append [] us vs ws = omega arith
get_size-append (t ∷ ts) us (v, vs) ws = omega (arith, get_size-append ts us vs ws)
