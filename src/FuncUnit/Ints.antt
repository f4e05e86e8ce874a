-- ===== src/FuncUnit/Ints.antt =====
-- Signed numbers and the words that stand for them, in two's complement.
use riscv_cmodel_h.Base.{
  ℕ, zero, suc, ◌-◌, ◌*◌, ◌/◌, ◌%◌, ◌^◌, Bool, true, false, ltb, if◌then◌else◌, u32, u64,
}

-- An integer: `pos n` is n and `negsuc n` is -(n + 1).
pub data ℤ : Type 0 where
  pos negsuc : ℕ → ℤ

-- `(int64_t)x` and `(int32_t)x`
abbrev pub to_i64 : ℕ → ℤ
to_i64 x = if ltb x (2 ^ 63) then pos x else negsuc (2 ^ 64 - 1 - x)

abbrev pub to_i32 : ℕ → ℤ
to_i32 x = if ltb (u32 x) (2 ^ 31) then pos (u32 x) else negsuc (2 ^ 32 - 1 - u32 x)

-- `(uint64_t)z`
abbrev pub of_ℤ : ℤ → ℕ
of_ℤ (pos n) = u64 n
of_ℤ (negsuc n) = 2 ^ 64 - 1 - u64 n

-- A word of 32 bits with its sign spread over 64.
abbrev pub sext32 : ℕ → ℕ
sext32 x = of_ℤ (to_i32 x)

abbrev pub is_neg : ℤ → Bool
is_neg (pos n) = false
is_neg (negsuc n) = true

abbrev pub magnitude : ℤ → ℕ
magnitude (pos n) = n
magnitude (negsuc n) = suc n

-- `a < b`
abbrev pub less : ℤ → ℤ → Bool
less (pos a) (pos b) = ltb a b
less (pos a) (negsuc b) = false
less (negsuc a) (pos b) = true
less (negsuc a) (negsuc b) = ltb b a

-- The integer of a sign and a magnitude.
abbrev pub signed : Bool → ℕ → ℤ
signed false n = pos n
signed true zero = pos zero
signed true (suc n) = negsuc n

abbrev pub differ : Bool → Bool → Bool
differ true true = false
differ true false = true
differ false b = b

infixl 70 ◌*ℤ◌
abbrev pub ◌*ℤ◌ : ℤ → ℤ → ℤ
a *ℤ b = signed (differ (is_neg a) (is_neg b)) (magnitude a * magnitude b)

-- Division of C++: towards 0, the remainder with the sign of the dividend.
abbrev pub quot : ℤ → ℤ → ℤ
quot a b = signed (differ (is_neg a) (is_neg b)) (magnitude a / magnitude b)

abbrev pub rem : ℤ → ℤ → ℤ
rem a b = signed (is_neg a) (magnitude a % magnitude b)

-- `z >> k`, which rounds down.
abbrev pub shift_down : ℤ → ℕ → ℤ
shift_down (pos n) k = pos (n / 2 ^ k)
shift_down (negsuc n) k = negsuc (n / 2 ^ k)
