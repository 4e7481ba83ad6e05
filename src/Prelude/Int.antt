-- ===== src/Prelude/Int.antt =====
-- Signed 64-bit integers: an integer with its wrap-around, and the tests that the program makes.
use dorganizer.Prelude.{
  ℕ, suc, ◌+◌, ◌-◌, ◌*◌, ◌/◌, ◌%◌, ◌^◌, ◌≤◌, ◌<◌, ◌≡◌, ◌↔◌, Bool, true, false, arith, ltb, leb,
  nat_beq, if◌then◌else◌, Equality,
}

-- `negsuc n` is -(n + 1).
pub data ℤ : Type 0 where
  pos : ℕ → ℤ
  negsuc : ℕ → ℤ

abbrev pub pos_part : ℤ → ℕ
pos_part (pos n) = n
pos_part (negsuc n) = 0

abbrev pub neg_part : ℤ → ℕ
neg_part (pos n) = 0
neg_part (negsuc n) = suc n

abbrev pub sub_ℕ : ℕ → ℕ → ℤ
sub_ℕ a b = if leb b a then pos (a - b) else negsuc (b - a - 1)

infix 50 ◌≤ℤ◌
abbrev pub ◌≤ℤ◌ : ℤ → ℤ → Type 0
a ≤ℤ b = pos_part a + neg_part b ≤ pos_part b + neg_part a

abbrev pub leb_ℤ : ℤ → ℤ → Bool
leb_ℤ a b = leb (pos_part a + neg_part b) (pos_part b + neg_part a)

abbrev pub ltb_ℤ : ℤ → ℤ → Bool
ltb_ℤ a b = ltb (pos_part a + neg_part b) (pos_part b + neg_part a)

abbrev pub int_beq : ℤ → ℤ → Bool
int_beq (pos a) (pos b) = nat_beq a b
int_beq (negsuc a) (negsuc b) = nat_beq a b
int_beq _ _ = false

pub int_beq_iff : (a b : ℤ) → (int_beq a b ≡ true) ↔ (a ≡ b)
int_beq_iff a b = ground arith

instance abbrev pub int_eq : Equality ℤ
int_eq = record { same = int_beq; same_iff = λ x y. ((int_beq_iff x y).1, (int_beq_iff x y).0) }

-- The int64 that holds the low 64 bits of an integer, in two's complement.
unfoldable pub signed : ℕ → ℤ
signed u = if ltb u (2 ^ 63) then pos u else negsuc (2 ^ 64 - 1 - u)

unfoldable pub wrap64 : ℤ → ℤ
unfolding signed
wrap64 (pos n) = signed (n % 2 ^ 64)
wrap64 (negsuc n) = signed (2 ^ 64 - 1 - n % 2 ^ 64)

-- int64 products by a small constant, differences, and the quotient, which truncates towards 0.
unfoldable pub mul64 : ℤ → ℕ → ℤ
unfolding wrap64
mul64 a k = wrap64 (sub_ℕ (pos_part a * k) (neg_part a * k))

unfoldable pub sub64 : ℤ → ℕ → ℤ
unfolding wrap64
sub64 a k = wrap64 (sub_ℕ (pos_part a) (neg_part a + k))

unfoldable pub quot64 : ℤ → ℕ → ℤ
quot64 a k = sub_ℕ (pos_part a / k) (neg_part a / k)

pub wrap64_small : (n : ℕ) → n < 2 ^ 63 → wrap64 (pos n) ≡ pos n
unfolding wrap64
wrap64_small n h = ground arith

pub mul64_small : (n k : ℕ) → n * k < 2 ^ 63 → mul64 (pos n) k ≡ pos (n * k)
unfolding mul64
mul64_small n k h = ground (arith, wrap64_small (n * k))

pub sub64_small : (n k : ℕ) → n < 2 ^ 63 → k ≤ n → sub64 (pos n) k ≡ pos (n - k)
unfolding sub64
sub64_small n k h le = ground arith

pub quot64_small : (n k : ℕ) → quot64 (pos n) (suc k) ≡ pos (n / suc k)
unfolding quot64
quot64_small n k = ground arith
