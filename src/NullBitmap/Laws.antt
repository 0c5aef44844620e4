-- ===== src/NullBitmap/Laws.antt =====
-- A null bitmap holds just the flags that it was made from.
use mysql_asio.Base.{
  ℕ, zero, suc, ◌+◌, ◌%◌, ◌<◌, ◌≤◌, ◌≡◌, refl, ap, ◌∙◌, Bool, true, false, ◌||◌, ◌&&◌, List, [],
  ◌∷◌, ◌==◌, length, All, get_or, set, replicate, length-set, length-replicate, arith, ==-cases,
  ==_refl, ≢→==, inl, inr, sym, get_or-set_same, get_or-append, ◌++◌, get_or-set_other,
  get_or-replicate, All-set, All-get_or, All-replicate,
}
use mysql_asio.Base.Bytes.{IsByte}
use mysql_asio.NullBitmap.{
  NullBitmapTraits, byte_pos, bit_pos, byte_count, test_bit, with_bit, is_null, set_null, set_nulls,
  null_bitmap,
}
use mysql_asio.NullBitmap.Bits.{test_bit-zero, test_bit-with_bit, with_bit-lt}

-- The bytes that the traits count.
pub record IsBitmap (t : NullBitmapTraits) (bitmap : List ℕ) : Type 0 where
  pub size : length bitmap ≡ byte_count t
  pub bytes : All IsByte bitmap

byte_at :
    (t : NullBitmapTraits) (bitmap : List ℕ) (i : ℕ) → IsBitmap t bitmap → get_or bitmap i 0 < 256
byte_at t bitmap i h = All-get_or IsByte bitmap i 0 h.bytes (omega arith)

set_null-IsBitmap :
    (t : NullBitmapTraits) (bitmap : List ℕ) (p : ℕ)
    → IsBitmap t bitmap
    → IsBitmap t (set_null t bitmap p)
unfolding set_null bit_pos
set_null-IsBitmap t bitmap p h = record {
  size = length-set bitmap (byte_pos t p) _ ∙ h.size;
  bytes = All-set IsByte bitmap (byte_pos t p) _ h.bytes (
      with_bit-lt (get_or bitmap (byte_pos t p) 0) ((p + t.offset) % 8)
        (byte_at t bitmap (byte_pos t p) h) (omega arith));
}

-- A write into one byte, seen in the same byte.
same_byte :
    (bitmap : List ℕ) (k i j : ℕ)
    → All IsByte bitmap
    → k < length bitmap
    → i < 8
    → j < 8
    → test_bit (get_or (set bitmap k (with_bit (get_or bitmap k 0) i)) k 0) j
      ≡ ((i == j) || test_bit (get_or bitmap k 0) j)
same_byte bitmap k i j h l hi hj =
    ap (λ b. test_bit b j) (get_or-set_same bitmap k (with_bit (get_or bitmap k 0) i) 0 l)
    ∙ test_bit-with_bit (get_or bitmap k 0) i j (All-get_or IsByte bitmap k 0 h (omega arith)) hi hj

-- In one byte, fields are told apart by their bits.
bit_pos-eq :
    (t : NullBitmapTraits) (p q : ℕ)
    → byte_pos t p ≡ byte_pos t q
    → (bit_pos t p == bit_pos t q) ≡ (p == q)
unfolding byte_pos bit_pos
bit_pos-eq t p q e = elim (==-cases p q) [
  | inl (f, g) ↦ rw (g, f) (==_refl ((q + t.offset) % 8))
  | inr (f, g) ↦ rw g (≢→== ((p + t.offset) % 8) ((q + t.offset) % 8) (omega arith))
]

byte_pos-lt : (t : NullBitmapTraits) (p : ℕ) → p < t.num_fields → byte_pos t p < byte_count t
unfolding byte_pos byte_count
byte_pos-lt t p h = omega arith

bit_pos-lt : (t : NullBitmapTraits) (p : ℕ) → bit_pos t p < 8
unfolding bit_pos
bit_pos-lt t p = omega arith

-- A field's bit is set by its own `set_null` and by no other.
is_null-set_null :
    (t : NullBitmapTraits) (bitmap : List ℕ) (p q : ℕ)
    → IsBitmap t bitmap
    → p < t.num_fields
    → is_null t (set_null t bitmap p) q ≡ ((p == q) || is_null t bitmap q)
unfolding is_null set_null
is_null-set_null t bitmap p q h l = elim (==-cases (byte_pos t p) (byte_pos t q)) [
  | inl (e, _) ↦
      ap (λ k. test_bit (get_or (set_null t bitmap p) k 0) (bit_pos t q)) (sym e)
      ∙ same_byte bitmap (byte_pos t p) (bit_pos t p) (bit_pos t q) h.bytes
          (omega (arith, h.size, byte_pos-lt t p l)) (bit_pos-lt t p) (bit_pos-lt t q)
      ∙ ap (λ c. c || test_bit (get_or bitmap (byte_pos t p) 0) (bit_pos t q)) (bit_pos-eq t p q e)
      ∙ ap (λ k. (p == q) || test_bit (get_or bitmap k 0) (bit_pos t q)) e
  | inr (e, _) ↦
      ap (λ b. test_bit b (bit_pos t q))
        (get_or-set_other bitmap (byte_pos t p) (byte_pos t q)
          (with_bit (get_or bitmap (byte_pos t p) 0) (bit_pos t p)) 0 e)
      ∙ rw (≢→== p q (λ f. e (ap (byte_pos t) f))) refl
]

-- Whether the loop from field `i` on marks field `q`.
abbrev marked : ℕ → List Bool → ℕ → Bool
marked i [] q = false
marked i (null ∷ flags) q = (null && i == q) || marked (suc i) flags q

or_swap : (a b c : Bool) → (a || (b || c)) ≡ ((b || a) || c)
or_swap true true c = refl
or_swap true false c = refl
or_swap false true c = refl
or_swap false false c = refl

marked_below : (i : ℕ) (flags : List Bool) (q : ℕ) → q < i → marked i flags q ≡ false
marked_below i [] q h = refl
marked_below i (true ∷ flags) q h =
    rw (≢→== i q (omega arith)) (marked_below (suc i) flags q (omega arith))
marked_below i (false ∷ flags) q h = marked_below (suc i) flags q (omega arith)

marked_at : (i : ℕ) (flags : List Bool) (k : ℕ) → marked i flags (i + k) ≡ get_or flags k false
marked_at i [] k = refl
marked_at i (true ∷ flags) zero =
    rw (ap (λ (k : ℕ). i == k) {x = i + 0} {y = i} (omega arith) ∙ ==_refl i) refl
marked_at i (false ∷ flags) zero = marked_below (suc i) flags (i + 0) (omega arith)
marked_at i (true ∷ flags) (suc k) = rw (≢→== i (i + suc k) (omega arith)) (
    ap (marked (suc i) flags) {x = i + suc k} {y = suc i + k} (omega arith)
    ∙ marked_at (suc i) flags k)
marked_at i (false ∷ flags) (suc k) =
    ap (marked (suc i) flags) {x = i + suc k} {y = suc i + k} (omega arith)
    ∙ marked_at (suc i) flags k

set_nulls_lem :
    (t : NullBitmapTraits) (i : ℕ) (flags : List Bool) (bitmap : List ℕ) (q : ℕ)
    → IsBitmap t bitmap
    → i + length flags ≤ t.num_fields
    → is_null t (set_nulls t i flags bitmap) q ≡ (marked i flags q || is_null t bitmap q)
unfolding set_nulls
set_nulls_lem t i [] bitmap q h l = refl
set_nulls_lem t i (true ∷ flags) bitmap q h l =
    set_nulls_lem t (suc i) flags (set_null t bitmap i) q (set_null-IsBitmap t bitmap i h)
      (omega arith)
    ∙ ap (λ c. marked (suc i) flags q || c) (is_null-set_null t bitmap i q h (omega arith))
    ∙ or_swap (marked (suc i) flags q) (i == q) (is_null t bitmap q)
set_nulls_lem t i (false ∷ flags) bitmap q h l =
    set_nulls_lem t (suc i) flags bitmap q h (omega arith)

set_nulls-IsBitmap :
    (t : NullBitmapTraits) (i : ℕ) (flags : List Bool) (bitmap : List ℕ)
    → IsBitmap t bitmap
    → IsBitmap t (set_nulls t i flags bitmap)
unfolding set_nulls
set_nulls-IsBitmap t i [] bitmap h = h
set_nulls-IsBitmap t i (true ∷ flags) bitmap h =
    set_nulls-IsBitmap t (suc i) flags (set_null t bitmap i) (set_null-IsBitmap t bitmap i h)
set_nulls-IsBitmap t i (false ∷ flags) bitmap h = set_nulls-IsBitmap t (suc i) flags bitmap h

zeros-IsBitmap : (t : NullBitmapTraits) → IsBitmap t (replicate (byte_count t) 0)
zeros-IsBitmap t = record {
  size = length-replicate (byte_count t) 0;
  bytes = All-replicate IsByte (byte_count t) 0 (omega arith);
}

is_null-zeros : (t : NullBitmapTraits) (q : ℕ) → is_null t (replicate (byte_count t) 0) q ≡ false
unfolding is_null
is_null-zeros t q =
    rw (get_or-replicate {A = ℕ} (byte_count t) (byte_pos t q) 0)
      (test_bit-zero (bit_pos t q) (bit_pos-lt t q))

pub null_bitmap-IsBitmap :
    (t : NullBitmapTraits) (flags : List Bool) → IsBitmap t (null_bitmap t flags)
unfolding null_bitmap
null_bitmap-IsBitmap t flags = set_nulls-IsBitmap t 0 flags _ (zeros-IsBitmap t)

or_false : (b : Bool) → (b || false) ≡ b
or_false true = refl
or_false false = refl

-- In the bitmap that is made for a list of fields, at any offset, each field reads as NULL just if
-- its flag was set.
pub is_null-null_bitmap :
    (t : NullBitmapTraits) (flags : List Bool) (q : ℕ)
    → length flags ≤ t.num_fields
    → is_null t (null_bitmap t flags) q ≡ get_or flags q false
unfolding null_bitmap
is_null-null_bitmap t flags q h =
    set_nulls_lem t 0 flags (replicate (byte_count t) 0) q (zeros-IsBitmap t) (omega arith)
    ∙ rw (is_null-zeros t q) (or_false (marked 0 flags q))
    ∙ ap (marked 0 flags) {x = q} {y = 0 + q} (omega arith)
    ∙ marked_at 0 flags q

-- What stands behind a bitmap does not matter to its fields.
pub is_null-append :
    (t : NullBitmapTraits) (bitmap behind : List ℕ) (q : ℕ)
    → IsBitmap t bitmap
    → q < t.num_fields
    → is_null t (bitmap ++ behind) q ≡ is_null t bitmap q
unfolding is_null
is_null-append t bitmap behind q h l =
    ap (λ b. test_bit b (bit_pos t q))
      (get_or-append bitmap behind (byte_pos t q) 0 (omega (arith, h.size, byte_pos-lt t q l)))
