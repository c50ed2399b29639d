-- ===== src/Base/Bits.antt =====
-- The bits of a number, and what `&`, `|`, `~` and single-bit masks do to each of them.
use Prim.Native.Nat.{ℕ, zero, suc, ◌+◌, ◌-◌, ◌*◌, ◌/◌, ◌%◌, ◌^◌, ◌≤◌, ◌<◌, min, max}
use Prim.Native.Nat.{bit_and, bit_or, digits, bit_and-bitwise, bit_or-bitwise}
use mathlib.Core.Path.{◌≡◌, refl, ap, sym, ◌∙◌}
use native.Mathlib.Omega.{arith}
use native.Mathlib.Nat.{
  two-pow-succ, one-le-pow, mod-lt, mod-eq_of_lt, div-add-mod', mul-add-mod_self_right,
  div-div-eq-div-mul,
}
use open_hypervisor.Base.Tests.{◌==◌, if◌then◌else◌}

-- Bit `k` of `x`, as 0 or 1.
unfoldable pub bit_at : ℕ → ℕ → ℕ
bit_at x zero = x % 2
bit_at x (suc k) = bit_at (x / 2) k

-- `~x` on a 64-bit word.
abbrev pub not64 : ℕ → ℕ
not64 x = 2 ^ 64 - 1 - x

module _ (z : ℕ → ℕ) (f : ℕ → ℕ → ℕ) where
  digits_enough : (n m a b : ℕ) → a ≤ n → a ≤ m → digits z f n a b ≡ digits z f m a b
  digits_enough zero zero zero b p q = refl
  digits_enough zero (suc m) zero b p q = refl
  digits_enough (suc n) zero zero b p q = refl
  digits_enough (suc n) (suc m) zero b p q = refl
  digits_enough zero m (suc a) b p q = absurd (omega arith)
  digits_enough (suc n) zero (suc a) b p q = absurd (omega arith)
  digits_enough (suc n) (suc m) (suc a) b p q =
      rw (digits_enough n m (suc a / 2) (b / 2) (omega arith) (omega arith))

bit_and_halves : (a b : ℕ) → bit_and a b ≡ bit_and (a / 2) (b / 2) * 2 + min (a % 2) (b % 2)
bit_and_halves zero b = simp bit_and-bitwise (omega arith)
bit_and_halves (suc a) b = omega (
  arith,
  bit_and-bitwise (suc a) b,
  bit_and-bitwise (suc a / 2) (b / 2),
  digits_enough (λ d. zero) min a (suc a / 2) (suc a / 2) (b / 2) (omega arith) (omega arith),
)

bit_or_halves : (a b : ℕ) → bit_or a b ≡ bit_or (a / 2) (b / 2) * 2 + max (a % 2) (b % 2)
bit_or_halves zero b = simp bit_or-bitwise (omega arith)
bit_or_halves (suc a) b = omega (
  arith,
  bit_or-bitwise (suc a) b,
  bit_or-bitwise (suc a / 2) (b / 2),
  digits_enough (λ d. d) max a (suc a / 2) (suc a / 2) (b / 2) (omega arith) (omega arith),
)

pub bit_at-le-one : (k x : ℕ) → bit_at x k ≤ 1
unfolding bit_at
bit_at-le-one zero x = omega arith
bit_at-le-one (suc k) x = bit_at-le-one k (x / 2)

pub bit_at-and : (k a b : ℕ) → bit_at (bit_and a b) k ≡ min (bit_at a k) (bit_at b k)
unfolding bit_at
bit_at-and zero a b = omega (arith, bit_and_halves a b)
bit_at-and (suc k) a b =
    let halved : bit_and a b / 2 ≡ bit_and (a / 2) (b / 2) = omega (arith, bit_and_halves a b) in
    rw halved (bit_at-and k (a / 2) (b / 2))

pub bit_at-or : (k a b : ℕ) → bit_at (bit_or a b) k ≡ max (bit_at a k) (bit_at b k)
unfolding bit_at
bit_at-or zero a b = omega (arith, bit_or_halves a b)
bit_at-or (suc k) a b =
    let halved : bit_or a b / 2 ≡ bit_or (a / 2) (b / 2) = omega (arith, bit_or_halves a b) in
    rw halved (bit_at-or k (a / 2) (b / 2))

-- Complement within `n` bits flips each of them.
pub bit_at-complement : (n k x : ℕ) → k < n → x < 2 ^ n → bit_at (2 ^ n - 1 - x) k ≡ 1 - bit_at x k
unfolding bit_at
bit_at-complement zero k x h lt = absurd (omega arith)
bit_at-complement (suc n) zero x h lt = omega (arith, two-pow-succ n)
bit_at-complement (suc n) (suc k) x h lt =
    let halved : (2 ^ suc n - 1 - x) / 2 ≡ 2 ^ n - 1 - x / 2 = omega (arith, two-pow-succ n) in
    rw halved (bit_at-complement n k (x / 2) (omega arith) (omega (arith, two-pow-succ n)))

-- Two numbers of `n` bits with the same bits are equal.
pub bit_ext :
    (n a b : ℕ) → a < 2 ^ n → b < 2 ^ n → ((k : ℕ) → k < n → bit_at a k ≡ bit_at b k) → a ≡ b
unfolding bit_at
bit_ext zero a b ha hb same = omega arith
bit_ext (suc n) a b ha hb same =
    let low : a % 2 ≡ b % 2 = same 0 (omega arith) in
    let high : a / 2 ≡ b / 2 =
      bit_ext n (a / 2) (b / 2) (omega (arith, two-pow-succ n)) (omega (arith, two-pow-succ n))
        (λ k h. same (suc k) (omega arith)) in
    omega arith

pub bit_or-lt : (n a b : ℕ) → a < 2 ^ n → b < 2 ^ n → bit_or a b < 2 ^ n
bit_or-lt zero zero zero ha hb = omega arith
bit_or-lt zero zero (suc b) ha hb = absurd (omega arith)
bit_or-lt zero (suc a) b ha hb = absurd (omega arith)
bit_or-lt (suc n) a b ha hb = omega (
  arith,
  two-pow-succ n,
  bit_or_halves a b,
  bit_or-lt n (a / 2) (b / 2) (omega (arith, two-pow-succ n)) (omega (arith, two-pow-succ n)),
)

pub bit_and-lt : (n a b : ℕ) → a < 2 ^ n → bit_and a b < 2 ^ n
bit_and-lt zero zero b ha = simp bit_and-bitwise (omega arith)
bit_and-lt zero (suc a) b ha = absurd (omega arith)
bit_and-lt (suc n) a b ha = omega (
  arith,
  two-pow-succ n,
  bit_and_halves a b,
  bit_and-lt n (a / 2) (b / 2) (omega (arith, two-pow-succ n)),
)

pub bit_at_zero : (k : ℕ) → bit_at 0 k ≡ 0
unfolding bit_at
bit_at_zero zero = refl
bit_at_zero (suc k) = bit_at_zero k

-- No bits from `n` up in a number of `n` bits.
pub bit_at-high : (n k x : ℕ) → x < 2 ^ n → n ≤ k → bit_at x k ≡ 0
unfolding bit_at
bit_at-high zero k zero lt le = bit_at_zero k
bit_at-high zero k (suc x) lt le = absurd (omega arith)
bit_at-high (suc n) zero x lt le = absurd (omega arith)
bit_at-high (suc n) (suc k) x lt le =
    bit_at-high n k (x / 2) (omega (arith, two-pow-succ n)) (omega arith)

-- A single-bit mask.
pub bit_at-one_hot : (j k : ℕ) → bit_at (2 ^ j) k ≡ (if j == k then 1 else 0)
unfolding bit_at
bit_at-one_hot zero zero = refl
bit_at-one_hot zero (suc k) = ground (arith, bit_at_zero k)
bit_at-one_hot (suc j) zero = ground (arith, two-pow-succ j)
bit_at-one_hot (suc j) (suc k) =
    let halved : 2 ^ suc j / 2 ≡ 2 ^ j = omega (arith, two-pow-succ j) in
    rw halved (ground (arith, bit_at-one_hot j k))

bit_and_nothing : (n a : ℕ) → a ≤ n → bit_and a 0 ≡ 0
bit_and_nothing n zero h = simp bit_and-bitwise
bit_and_nothing zero (suc a) h = absurd (omega arith)
bit_and_nothing (suc n) (suc a) h =
    omega (arith, bit_and_halves (suc a) 0, bit_and_nothing n (suc a / 2) (omega arith))

bit_or_nothing : (n a : ℕ) → a ≤ n → bit_or a 0 ≡ a
bit_or_nothing n zero h = simp bit_or-bitwise
bit_or_nothing zero (suc a) h = absurd (omega arith)
bit_or_nothing (suc n) (suc a) h =
    omega (arith, bit_or_halves (suc a) 0, bit_or_nothing n (suc a / 2) (omega arith))

-- Testing one bit by a mask.
pub bit_and-one_hot : (k x : ℕ) → bit_and x (2 ^ k) ≡ bit_at x k * 2 ^ k
unfolding bit_at
bit_and-one_hot zero x =
    omega (arith, bit_and_halves x 1, bit_and_nothing (x / 2) (x / 2) (omega arith))
bit_and-one_hot (suc k) x =
    let halved : 2 ^ suc k / 2 ≡ 2 ^ k = omega (arith, two-pow-succ k) in
    let scaled : bit_at (x / 2) k * 2 ^ suc k ≡ bit_at (x / 2) k * (2 ^ k + 2 ^ k) =
      ap (λ (t : ℕ). bit_at (x / 2) k * t) (two-pow-succ k) in
    ground (arith, bit_and_halves x (2 ^ suc k), bit_and-one_hot k (x / 2), two-pow-succ k)

-- The remainder by a power of two, one bit at a time.
mod_halves : (k a : ℕ) → a % 2 ^ suc k ≡ a / 2 % 2 ^ k * 2 + a % 2
mod_halves k a =
    let q = a / 2 / 2 ^ k in
    let r = a / 2 % 2 ^ k in
    let r_lt : r < 2 ^ k = mod-lt (a / 2) (one-le-pow k 2 (omega arith)) in
    let doubled : q * 2 ^ suc k ≡ q * (2 ^ k + 2 ^ k) = ap (λ (t : ℕ). q * t) (two-pow-succ k) in
    let split : a ≡ q * 2 ^ suc k + (r * 2 + a % 2) = omega (arith, div-add-mod' (a / 2) (2 ^ k)) in
    (ap (λ (t : ℕ). t % 2 ^ suc k) split ∙ mul-add-mod_self_right q (2 ^ suc k) (r * 2 + a % 2))
    ∙ mod-eq_of_lt (omega (arith, two-pow-succ k))

-- A mask of the low `k` bits is the remainder.
pub bit_and_low : (k a : ℕ) → bit_and a (2 ^ k - 1) ≡ a % 2 ^ k
bit_and_low zero a = omega (arith, bit_and_nothing a a (omega arith))
bit_and_low (suc k) a =
    let half_mask : (2 ^ suc k - 1) / 2 ≡ 2 ^ k - 1 =
      omega (arith, two-pow-succ k, one-le-pow k 2) in
    ground (
      arith,
      bit_and_halves a (2 ^ suc k - 1),
      bit_and_low k (a / 2),
      two-pow-succ k,
      one-le-pow k 2,
      mod_halves k a,
    )

-- The remainder keeps the bits below.
pub bit_at-mod : (n k x : ℕ) → k < n → bit_at (x % 2 ^ n) k ≡ bit_at x k
bit_at-mod n k x lt =
    let whole : 2 ^ n - 1 - 0 ≡ 2 ^ n - 1 = omega arith in
    let ones : bit_at (2 ^ n - 1) k ≡ 1 - bit_at 0 k =
      ap (λ (t : ℕ). bit_at t k) (sym whole)
      ∙ bit_at-complement n k 0 lt (one-le-pow n 2 (omega arith)) in
    omega (
      arith,
      ap (λ (t : ℕ). bit_at t k) (bit_and_low n x),
      bit_at-and k x (2 ^ n - 1),
      ones,
      bit_at_zero k,
      bit_at-le-one k x,
    )

-- `|` of a field above bit `k` and a field below it.
pub bit_or_disjoint : (k hi lo : ℕ) → lo < 2 ^ k → bit_or (hi * 2 ^ k) lo ≡ hi * 2 ^ k + lo
bit_or_disjoint zero hi lo h = ground (arith, bit_or_nothing hi hi)
bit_or_disjoint (suc k) hi lo h =
    let doubled : hi * 2 ^ suc k ≡ hi * (2 ^ k + 2 ^ k) = ap (λ (t : ℕ). hi * t) (two-pow-succ k) in
    let half_hi : hi * 2 ^ suc k / 2 ≡ hi * 2 ^ k = omega arith in
    ground (
      arith,
      bit_or_halves (hi * 2 ^ suc k) lo,
      bit_or_disjoint k hi (lo / 2) (omega (arith, two-pow-succ k)),
    )

mul_pow_halves : (m k : ℕ) → m * 2 ^ suc k ≡ m * 2 ^ k * 2
mul_pow_halves m k = omega (arith, ap (λ (t : ℕ). m * t) (two-pow-succ k))

div_pow_halves : (x k : ℕ) → x / 2 ^ suc k ≡ x / 2 / 2 ^ k
div_pow_halves x k =
    let twice : 2 ^ suc k ≡ 2 * 2 ^ k = omega (arith, two-pow-succ k) in
    ap (λ (t : ℕ). x / t) twice ∙ sym (div-div-eq-div-mul x 2 (2 ^ k))

-- A mask of bits from `k` up picks those bits.
pub bit_and_shifted : (k x m : ℕ) → bit_and x (m * 2 ^ k) ≡ bit_and (x / 2 ^ k) m * 2 ^ k
bit_and_shifted zero x m = ground arith
bit_and_shifted (suc k) x m = ground (
  arith,
  bit_and_halves x (m * 2 ^ suc k),
  bit_and_shifted k (x / 2) m,
  mul_pow_halves m k,
  mul_pow_halves (bit_and (x / 2 ^ suc k) m) k,
  div_pow_halves x k,
)

-- `|` with bits from `k` up leaves those below as they are.
pub bit_or_shifted :
    (k hi lo m : ℕ) → lo < 2 ^ k → bit_or (hi * 2 ^ k + lo) (m * 2 ^ k) ≡ bit_or hi m * 2 ^ k + lo
bit_or_shifted zero hi lo m h = ground arith
bit_or_shifted (suc k) hi lo m h = ground (
  arith,
  bit_or_halves (hi * 2 ^ suc k + lo) (m * 2 ^ suc k),
  bit_or_shifted k hi (lo / 2) m (omega (arith, two-pow-succ k)),
  mul_pow_halves hi k,
  mul_pow_halves m k,
  mul_pow_halves (bit_or hi m) k,
)

-- A mask of the bits from `k` up rounds down.
pub bit_and_high :
    (k n x : ℕ) → k ≤ n → x < 2 ^ n → bit_and x (2 ^ n - 1 - (2 ^ k - 1)) ≡ x / 2 ^ k * 2 ^ k
bit_and_high zero n x le lt =
    let whole : 2 ^ n - 1 - (2 ^ 0 - 1) ≡ 2 ^ n - 1 = omega arith in
    ground (arith, ap (bit_and x) whole, bit_and_low n x, mod-eq_of_lt lt)
bit_and_high (suc k) zero x le lt = absurd (omega arith)
bit_and_high (suc k) (suc n) x le lt =
    let mask = 2 ^ suc n - 1 - (2 ^ suc k - 1) in
    let half_mask : mask / 2 ≡ 2 ^ n - 1 - (2 ^ k - 1) =
      omega (arith, two-pow-succ k, two-pow-succ n, one-le-pow k 2, one-le-pow n 2) in
    let even : mask % 2 ≡ 0 =
      omega (arith, two-pow-succ k, two-pow-succ n, one-le-pow k 2, one-le-pow n 2) in
    ground (
      arith,
      bit_and_halves x mask,
      ap (bit_and (x / 2)) half_mask,
      bit_and_high k n (x / 2) (omega arith) (omega (arith, two-pow-succ n)),
      div_pow_halves x k,
      mul_pow_halves (x / 2 / 2 ^ k) k,
      two-pow-succ n,
    )

-- Rounding down before a coarser division changes nothing.
pub div_rounded : (k n x : ℕ) → k ≤ n → x / 2 ^ k * 2 ^ k / 2 ^ n ≡ x / 2 ^ n
div_rounded zero n x le = ap (λ (t : ℕ). t / 2 ^ n) (omega arith)
div_rounded (suc k) zero x le = absurd (omega arith)
div_rounded (suc k) (suc n) x le =
    let halved : x / 2 ^ suc k * 2 ^ suc k / 2 ≡ x / 2 / 2 ^ k * 2 ^ k = omega (
      arith,
      ap (λ (t : ℕ). t * 2 ^ suc k) (div_pow_halves x k),
      mul_pow_halves (x / 2 / 2 ^ k) k,
    ) in
    div_pow_halves (x / 2 ^ suc k * 2 ^ suc k) n
    ∙ (ap (λ (t : ℕ). t / 2 ^ n) halved
        ∙ (div_rounded k n (x / 2) (omega arith) ∙ sym (div_pow_halves x n)))
