-- ===== src/Base/Mask.antt =====
-- What `&` with a mask of consecutive ones keeps of a number.
use Prim.Native.Nat.{
  ℕ, zero, suc, ◌+◌, ◌-◌, ◌*◌, ◌/◌, ◌%◌, ◌^◌, ◌≤◌, ◌<◌, min, digits, bit_and, bit_and-bitwise,
}
use native.Mathlib.Omega.{arith}
use native.Mathlib.Nat.{
  mul-add-mod_self_right, mod-eq_of_lt, mod-lt, div-add-mod', div-div-eq-div-mul, mul_assoc,
  mul-one, div-one, mul-div_left, mul-mod_left,
}
use mathlib.Core.Path.{◌≡◌, refl, sym, ap, ◌∙◌}
use riscv_cmodel_h.Base.Bits.{bit_and-le}

-- The digits of `&`, with a bound on their number.
abbrev low_digits : ℕ → ℕ → ℕ → ℕ
low_digits fuel x mask = digits (λ _. 0) min fuel x mask

one_more : (fuel x mask : ℕ) → x ≤ fuel → low_digits (suc fuel) x mask ≡ low_digits fuel x mask
one_more zero zero mask h = refl
one_more zero (suc x) mask h = absurd (omega (arith, h))
one_more (suc fuel) zero mask h = refl
one_more (suc fuel) (suc x) mask h =
    let rest = one_more fuel (suc x / 2) (mask / 2) (omega (arith, h)) in
    ap (λ high. high * 2 + min (suc x % 2) (mask % 2)) rest

-- A bound that is larger than needed gives the same digits.
many_more :
    (extra fuel x mask : ℕ) → x ≤ fuel → low_digits (extra + fuel) x mask ≡ low_digits fuel x mask
many_more zero fuel x mask h = ap (λ n. low_digits n x mask) (omega arith)
many_more (suc extra) fuel x mask h =
    let next : suc extra + fuel ≡ suc (extra + fuel) = omega arith in
    ap (λ n. low_digits n x mask) next
    ∙ one_more (extra + fuel) x mask (omega (arith, h))
    ∙ many_more extra fuel x mask h

-- `&` by its lowest digit.
bit_and-halves :
    (x mask : ℕ) → bit_and x mask ≡ min (x % 2) (mask % 2) + 2 * bit_and (x / 2) (mask / 2)
bit_and-halves zero mask = simp bit_and-bitwise (omega arith)
bit_and-halves (suc x) mask =
    let half = suc x / 2 in
    let bound : x ≡ x - half + half = omega arith in
    let enough =
      ap (λ n. low_digits n half (mask / 2)) bound
      ∙ many_more (x - half) half half (mask / 2) (omega arith) in
    simp bit_and-bitwise (omega (arith, enough))

pow_pos : (k : ℕ) → 0 < 2 ^ k
pow_pos zero = omega arith
pow_pos (suc k) = omega (arith, pow_pos k)

min-zero : (x : ℕ) → min x 0 ≡ 0
min-zero x = omega arith

min-bit : (x : ℕ) → x < 2 → min x 1 ≡ x
min-bit x h = omega arith

mod-double : (a m : ℕ) → 0 < m → a / 2 % m * 2 + a % 2 ≡ a % (m * 2)
mod-double a m h =
    let r = a / 2 % m * 2 + a % 2 in
    let lt : r < m * 2 = omega (arith, mod-lt (a / 2) h) in
    let whole : a / 2 / m * (m * 2) + r ≡ a =
      (let q = div-add-mod' (a / 2) m in grind (arith, q)) in
    sym (mod-eq_of_lt lt)
    ∙ sym (mul-add-mod_self_right (a / 2 / m) (m * 2) r)
    ∙ ap (λ x. x % (m * 2)) whole

-- A mask of `k` ones keeps the low `k` digits.
pub bit_and-low : (k a : ℕ) → bit_and a (2 ^ k - 1) ≡ a % 2 ^ k
bit_and-low zero a = omega (arith, bit_and-le a 0)
bit_and-low (suc k) a =
    let pos = pow_pos k in
    let half : (2 ^ suc k - 1) / 2 ≡ 2 ^ k - 1 = omega (arith, pos) in
    let odd : (2 ^ suc k - 1) % 2 ≡ 1 = omega (arith, pos) in
    bit_and-halves a (2 ^ suc k - 1)
    ∙ rw (half, odd, bit_and-low k (a / 2), min-bit (a % 2) (omega arith))
        (omega arith ∙ mod-double a (2 ^ k) pos ∙ ap (λ x. a % x) (omega arith))

-- A mask of `d` ones above `l` zeros keeps the `d` digits from `l` on.
pub bit_and_field : (l d a : ℕ) → bit_and a ((2 ^ d - 1) * 2 ^ l) ≡ a / 2 ^ l % 2 ^ d * 2 ^ l
bit_and_field zero d a =
    ap (bit_and a) (mul-one (2 ^ d - 1))
    ∙ bit_and-low d a
    ∙ ap (λ x. x % 2 ^ d) (sym (div-one a))
    ∙ sym (mul-one (a / 1 % 2 ^ d))
bit_and_field (suc l) d a =
    let ones = 2 ^ d - 1 in
    let twice : 2 ^ suc l ≡ 2 ^ l * 2 = omega arith in
    let shape : ones * 2 ^ suc l ≡ ones * 2 ^ l * 2 =
      ap (λ x. ones * x) twice ∙ sym (mul_assoc ones (2 ^ l) 2) in
    let half : ones * 2 ^ suc l / 2 ≡ ones * 2 ^ l =
      ap (λ x. x / 2) shape ∙ mul-div_left (ones * 2 ^ l) (omega arith) in
    let even : ones * 2 ^ suc l % 2 ≡ 0 = ap (λ x. x % 2) shape ∙ mul-mod_left (ones * 2 ^ l) 2 in
    let kept : a / 2 / 2 ^ l ≡ a / 2 ^ suc l =
      div-div-eq-div-mul a 2 (2 ^ l) ∙ ap (λ x. a / x) (omega arith) in
    rw
      (bit_and-halves a (ones * 2 ^ suc l), half, even, min-zero (a % 2), bit_and_field l d (a / 2))
      (ap (λ x. 0 + 2 * (x % 2 ^ d * 2 ^ l)) kept
        ∙ omega arith
        ∙ mul_assoc (a / 2 ^ suc l % 2 ^ d) (2 ^ l) 2
        ∙ ap (λ x. a / 2 ^ suc l % 2 ^ d * x) (sym twice))

-- The same, shifted down.
pub bit_and-high : (l d a : ℕ) → bit_and a ((2 ^ d - 1) * 2 ^ l) / 2 ^ l ≡ a / 2 ^ l % 2 ^ d
bit_and-high l d a =
    ap (λ x. x / 2 ^ l) (bit_and_field l d a) ∙ mul-div_left (a / 2 ^ l % 2 ^ d) (pow_pos l)
