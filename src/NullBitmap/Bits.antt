-- ===== src/NullBitmap/Bits.antt =====
-- Setting one bit of a byte, and reading another.
use mysql_asio.Base.{
  ◌/◌, ◌%◌, ◌^◌, ℕ, zero, suc, ◌<◌, ◌≡◌, Bool, true, false, ◌&&◌, ◌||◌, not, ltb, ltb→lt, ◌==◌,
  arith, ==-cases, inl, inr, ap, ◌∙◌, refl,
}
use mysql_asio.NullBitmap.{test_bit, with_bit}

-- A test of all numbers below a bound.
abbrev all_below : ℕ → (ℕ → Bool) → Bool
all_below zero p = true
all_below (suc n) p = p n && all_below n p

and-true : (a b : Bool) → (a && b) ≡ true → (a ≡ true) × (b ≡ true)
and-true true b h = (refl, h)
and-true false b h = cc

all_below_lem : (n : ℕ) (p : ℕ → Bool) (i : ℕ) → all_below n p ≡ true → i < n → p i ≡ true
all_below_lem zero p i h l = absurd (omega arith)
all_below_lem (suc n) p i h l =
    let (last, others) = and-true (p n) (all_below n p) h in
    elim (==-cases i n) [
      | inl (e, _) ↦ ap p e ∙ last
      | inr (e, _) ↦ all_below_lem n p i others (omega arith)
    ]

abbrev same : Bool → Bool → Bool
same true b = b
same false b = not b

same-eq : (a b : Bool) → same a b ≡ true → a ≡ b
same-eq true true h = refl
same-eq true false h = cc
same-eq false true h = cc
same-eq false false h = refl

abbrev bit_test : ℕ → ℕ → ℕ → Bool
bit_test b i j =
    same (test_bit (with_bit b i) j) ((i == j) || test_bit b j) && ltb (with_bit b i) 256

bit_tests : all_below 256 (λ b. all_below 8 (λ i. all_below 8 (λ j. bit_test b i j))) ≡ true
bit_tests = refl

bit_test_lem : (b i j : ℕ) → b < 256 → i < 8 → j < 8 → bit_test b i j ≡ true
bit_test_lem b i j hb hi hj =
    all_below_lem 8 (bit_test b i) j
      (all_below_lem 8 (λ k. all_below 8 (λ l. bit_test b k l)) i
        (all_below_lem 256 (λ c. all_below 8 (λ k. all_below 8 (λ l. bit_test c k l))) b bit_tests
          hb)
        hi)
      hj

pub test_bit-with_bit :
    (b i j : ℕ) → b < 256 → i < 8 → j < 8 → test_bit (with_bit b i) j ≡ ((i == j) || test_bit b j)
test_bit-with_bit b i j hb hi hj =
    same-eq (test_bit (with_bit b i) j) ((i == j) || test_bit b j)
      (and-true (same (test_bit (with_bit b i) j) ((i == j) || test_bit b j))
        (ltb (with_bit b i) 256) (bit_test_lem b i j hb hi hj)).0

pub with_bit-lt : (b i : ℕ) → b < 256 → i < 8 → with_bit b i < 256
with_bit-lt b i hb hi =
    ltb→lt (with_bit b i) 256
      (and-true (same (test_bit (with_bit b i) i) ((i == i) || test_bit b i))
        (ltb (with_bit b i) 256) (bit_test_lem b i i hb hi hi)).1

-- The test by a mask is the binary digit.
pub test_bit_lem : (b i : ℕ) → b < 256 → i < 8 → test_bit b i ≡ (b / 2 ^ i % 2 == 1)
test_bit_lem b i hb hi = same-eq (test_bit b i) (b / 2 ^ i % 2 == 1) (
    all_below_lem 8 (λ k. same (test_bit b k) (b / 2 ^ k % 2 == 1)) i
      (all_below_lem 256 (λ c. all_below 8 (λ k. same (test_bit c k) (c / 2 ^ k % 2 == 1))) b refl
        hb)
      hi)

not-true : (b : Bool) → not b ≡ true → b ≡ false
not-true true h = cc
not-true false h = refl

pub test_bit-zero : (j : ℕ) → j < 8 → test_bit 0 j ≡ false
test_bit-zero j h = not-true (test_bit 0 j) (all_below_lem 8 (λ k. not (test_bit 0 k)) j refl h)
