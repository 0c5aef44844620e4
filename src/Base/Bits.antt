-- ===== src/Base/Bits.antt =====
-- The binary digits of `&`, `|` and `^`.
use Prim.Native.Nat.{
  ℕ, zero, suc, ◌+◌, ◌*◌, ◌/◌, ◌%◌, ◌≤◌, ◌<◌, min, max, digits, bitwise, differ, bit_and, bit_or,
  bit_xor, bit_and-bitwise, bit_or-bitwise, bit_xor-bitwise,
}
use mathlib.Core.Path.{◌≡◌, refl, ap}
use native.Mathlib.Omega.{arith}

-- For an operation `f` on digits, where the rest of the second number is `z` of it.
module _ (z : ℕ → ℕ) (f : ℕ → ℕ → ℕ) where
  -- Enough rounds are as good as any other number that is enough.
  enough_rounds : (a b n m : ℕ) → a ≤ m → a ≤ n → digits z f m a b ≡ digits z f n a b
  enough_rounds zero b zero zero hm hn = refl
  enough_rounds zero b zero (suc m) hm hn = refl
  enough_rounds zero b (suc n) zero hm hn = refl
  enough_rounds zero b (suc n) (suc m) hm hn = refl
  enough_rounds (suc a) b zero m hm hn = absurd (omega arith)
  enough_rounds (suc a) b (suc n) zero hm hn = absurd (omega arith)
  enough_rounds (suc a) b (suc n) (suc m) hm hn =
      ap (λ k. k * 2 + f (suc a % 2) (b % 2))
        (enough_rounds (suc a / 2) (b / 2) n m (omega arith) (omega arith))

  low_digit :
      (a b : ℕ)
      → z b ≡ z (b / 2) * 2 + f 0 (b % 2)
      → bitwise z f a b ≡ bitwise z f (a / 2) (b / 2) * 2 + f (a % 2) (b % 2)
  low_digit zero b h = h
  low_digit (suc a) b h =
      ap (λ k. k * 2 + f (suc a % 2) (b % 2))
        (enough_rounds (suc a / 2) (b / 2) (suc a / 2) a (omega arith) (omega arith))

and_digit : (a b : ℕ) → bit_and a b ≡ bit_and (a / 2) (b / 2) * 2 + min (a % 2) (b % 2)
and_digit a b = simp bit_and-bitwise (low_digit (λ d. 0) min a b (omega arith))

or_digit : (a b : ℕ) → bit_or a b ≡ bit_or (a / 2) (b / 2) * 2 + max (a % 2) (b % 2)
or_digit a b = simp bit_or-bitwise (low_digit (λ d. d) max a b (omega arith))

xor_digit : (a b : ℕ) → bit_xor a b ≡ bit_xor (a / 2) (b / 2) * 2 + differ (a % 2) (b % 2)
xor_digit a b = simp bit_xor-bitwise (low_digit (λ d. d) differ a b (omega arith))

differ-lt : (a b : ℕ) → a < 2 → b < 2 → differ a b < 2
differ-lt zero b ha hb = hb
differ-lt (suc zero) zero ha hb = ha
differ-lt (suc zero) (suc b) ha hb = omega arith
differ-lt (suc (suc a)) b ha hb = absurd (omega arith)

differ_back : (a b : ℕ) → a < 2 → b < 2 → differ (differ a b) b ≡ a
differ_back zero zero ha hb = refl
differ_back zero (suc zero) ha hb = refl
differ_back (suc zero) zero ha hb = refl
differ_back (suc zero) (suc zero) ha hb = refl
differ_back (suc (suc a)) b ha hb = absurd (omega arith)
differ_back zero (suc (suc b)) ha hb = absurd (omega arith)
differ_back (suc zero) (suc (suc b)) ha hb = absurd (omega arith)

same_digits : (a b : ℕ) → a / 2 ≡ b / 2 → a % 2 ≡ b % 2 → a ≡ b
same_digits a b h l = omega arith

and_half : (a b : ℕ) → bit_and a b / 2 ≡ bit_and (a / 2) (b / 2)
and_half a b = omega (arith, and_digit a b)

and_low : (a b : ℕ) → bit_and a b % 2 ≡ min (a % 2) (b % 2)
and_low a b = omega (arith, and_digit a b)

or_half : (a b : ℕ) → bit_or a b / 2 ≡ bit_or (a / 2) (b / 2)
or_half a b = omega (arith, or_digit a b)

or_low : (a b : ℕ) → bit_or a b % 2 ≡ max (a % 2) (b % 2)
or_low a b = omega (arith, or_digit a b)

xor_half : (a b : ℕ) → bit_xor a b / 2 ≡ bit_xor (a / 2) (b / 2)
xor_half a b = omega (arith, xor_digit a b, differ-lt (a % 2) (b % 2) (omega arith) (omega arith))

xor_low : (a b : ℕ) → bit_xor a b % 2 ≡ differ (a % 2) (b % 2)
xor_low a b = omega (arith, xor_digit a b, differ-lt (a % 2) (b % 2) (omega arith) (omega arith))

xor_back_below : (n a b : ℕ) → a ≤ n → b ≤ n → bit_xor (bit_xor a b) b ≡ a
xor_back_below zero zero zero ha hb = refl
xor_back_below zero (suc a) b ha hb = absurd (omega arith)
xor_back_below zero zero (suc b) ha hb = absurd (omega arith)
xor_back_below (suc n) a b ha hb =
    same_digits (bit_xor (bit_xor a b) b) a
      (rw (xor_half (bit_xor a b) b, xor_half a b)
        (xor_back_below n (a / 2) (b / 2) (omega arith) (omega arith)))
      (rw (xor_low (bit_xor a b) b, xor_low a b)
        (differ_back (a % 2) (b % 2) (omega arith) (omega arith)))

pub xor_back : (a b : ℕ) → bit_xor (bit_xor a b) b ≡ a
xor_back a b = xor_back_below (a + b) a b (omega arith) (omega arith)

differ_comm : (a b : ℕ) → differ a b ≡ differ b a
differ_comm zero zero = refl
differ_comm zero (suc b) = refl
differ_comm (suc a) zero = refl
differ_comm (suc a) (suc b) = differ_comm a b

xor_comm_below : (n a b : ℕ) → a ≤ n → b ≤ n → bit_xor a b ≡ bit_xor b a
xor_comm_below zero zero zero ha hb = refl
xor_comm_below zero (suc a) b ha hb = absurd (omega arith)
xor_comm_below zero zero (suc b) ha hb = absurd (omega arith)
xor_comm_below (suc n) a b ha hb =
    same_digits (bit_xor a b) (bit_xor b a)
      (rw (xor_half a b, xor_half b a)
        (xor_comm_below n (a / 2) (b / 2) (omega arith) (omega arith)))
      (rw (xor_low a b, xor_low b a) (differ_comm (a % 2) (b % 2)))

pub bit_xor_comm : (a b : ℕ) → bit_xor a b ≡ bit_xor b a
bit_xor_comm a b = xor_comm_below (a + b) a b (omega arith) (omega arith)

-- Masks.
min_assoc : (a b c : ℕ) → min (min a b) c ≡ min a (min b c)
min_assoc a b c = omega arith

and_assoc_below :
    (n a b c : ℕ) → a ≤ n → b ≤ n → c ≤ n → bit_and (bit_and a b) c ≡ bit_and a (bit_and b c)
and_assoc_below zero zero zero zero ha hb hc = refl
and_assoc_below zero (suc a) b c ha hb hc = absurd (omega arith)
and_assoc_below zero zero (suc b) c ha hb hc = absurd (omega arith)
and_assoc_below zero zero zero (suc c) ha hb hc = absurd (omega arith)
and_assoc_below (suc n) a b c ha hb hc =
    same_digits (bit_and (bit_and a b) c) (bit_and a (bit_and b c))
      (rw (and_half (bit_and a b) c, and_half a b, and_half a (bit_and b c), and_half b c)
        (and_assoc_below n (a / 2) (b / 2) (c / 2) (omega arith) (omega arith) (omega arith)))
      (rw (and_low (bit_and a b) c, and_low a b, and_low a (bit_and b c), and_low b c)
        (min_assoc (a % 2) (b % 2) (c % 2)))

pub bit_and_assoc : (a b c : ℕ) → bit_and (bit_and a b) c ≡ bit_and a (bit_and b c)
bit_and_assoc a b c = and_assoc_below (a + b + c) a b c (omega arith) (omega arith) (omega arith)

and_zero_below : (n a : ℕ) → a ≤ n → bit_and a 0 ≡ 0
and_zero_below zero zero h = refl
and_zero_below zero (suc a) h = absurd (omega arith)
and_zero_below (suc n) a h =
    same_digits (bit_and a 0) 0 (rw (and_half a 0) (and_zero_below n (a / 2) (omega arith)))
      (rw (and_low a 0) (omega arith))

pub bit_and-zero : (a : ℕ) → bit_and a 0 ≡ 0
bit_and-zero a = and_zero_below a a (omega arith)

and_idem_below : (n a : ℕ) → a ≤ n → bit_and a a ≡ a
and_idem_below zero zero h = refl
and_idem_below zero (suc a) h = absurd (omega arith)
and_idem_below (suc n) a h =
    same_digits (bit_and a a) a (rw (and_half a a) (and_idem_below n (a / 2) (omega arith)))
      (rw (and_low a a) (omega arith))

pub bit_and_idem : (a : ℕ) → bit_and a a ≡ a
bit_and_idem a = and_idem_below a a (omega arith)
