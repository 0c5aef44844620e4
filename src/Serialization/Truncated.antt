-- ===== src/Serialization/Truncated.antt =====
-- A message that is cut short is never taken for a whole one.
use mysql_asio.Base.{ℕ, ◌≡◌, ◌∙◌, inl, inr, List, [], ◌∷◌, ◌++◌, append-nil}
use mysql_asio.Base.Error.{ok, err, Result-cases, make_error_code, incomplete_message}
use mysql_asio.Serialization.{
  FieldType, fixed_int, signed_int, enumeration, int_lenenc, string_null, string_eof, string_lenenc,
  string_fixed, Values, deserialize, serialize,
}
use mysql_asio.Serialization.Shape.{AllFit, IsDelimited}
use mysql_asio.Serialization.Consumed.{AllDelimited, deserialize-IsLocal, deserialize-FailsShort}
use mysql_asio.Serialization.RoundTrip.{Ends, AllEnd, deserialize-serialize}

Ends-of_delimited : (t : FieldType) (behind : List ℕ) → IsDelimited t → Ends t behind
Ends-of_delimited string_eof behind d = elim d [ ]
Ends-of_delimited (fixed_int t) behind d = tt
Ends-of_delimited (signed_int t) behind d = tt
Ends-of_delimited (enumeration t) behind d = tt
Ends-of_delimited int_lenenc behind d = tt
Ends-of_delimited string_null behind d = tt
Ends-of_delimited string_lenenc behind d = tt
Ends-of_delimited (string_fixed n) behind d = tt

pub AllEnd-of_delimited :
    (ts : List FieldType) (vs : Values ts) (rest : List ℕ) → AllDelimited ts → AllEnd ts vs rest
AllEnd-of_delimited [] vs rest d = tt
AllEnd-of_delimited (t ∷ ts) (v, vs) rest (d, ds) =
    (Ends-of_delimited t (serialize ts vs ++ rest) d, AllEnd-of_delimited ts vs rest ds)

no_bytes_left : (xs ys : List ℕ) (y : ℕ) → (xs ++ y ∷ ys) ≡ [] → ⊥
no_bytes_left [] ys y e = cc
no_bytes_left (x ∷ xs) ys y e = cc

-- For every list of delimited types and values in their range: on every proper prefix of what
-- `serialize` writes, `deserialize` answers `incomplete_message`.
pub deserialize_truncated :
    (ts : List FieldType) (vs : Values ts) (front back : List ℕ) (b : ℕ)
    → AllDelimited ts
    → AllFit ts vs
    → serialize ts vs ≡ front ++ (b ∷ back)
    → deserialize ts front ≡ err (make_error_code incomplete_message)
deserialize_truncated ts vs front back b d h e = elim (Result-cases (deserialize ts front)) [
  | inl (p, q) ↦ absurd (no_bytes_left p.1 back b (nothing_behind p q))
  | inr (c, q) ↦ q ∙ rw (deserialize-FailsShort ts front c q)
]
  where
    whole : deserialize ts (front ++ (b ∷ back)) ≡ ok (vs, [])
    whole =
        rw (append-nil, e) at (deserialize-serialize ts vs [] h (AllEnd-of_delimited ts vs [] d))

    nothing_behind :
        (p : Values ts × List ℕ) → deserialize ts front ≡ ok p → (p.1 ++ (b ∷ back)) ≡ []
    nothing_behind p q =
        let longer = (deserialize-IsLocal ts d).extends front (b ∷ back) p.0 p.1 q in
        cc (longer, whole)
