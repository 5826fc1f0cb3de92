-- ===== src/Base/Bits.antt =====
-- Single bits of words: setting and clearing bit 1, and the masks of one and two bits, at every word.
use Prim.Native.Nat.{
  ℕ, zero, suc, ◌+◌, ◌-◌, ◌*◌, ◌/◌, ◌%◌, ◌≤◌, ◌<◌, ◌^◌, min, max, digits, bitwise, bit_and, bit_or,
  bit_and-bitwise, bit_or-bitwise,
}
use mathlib.Core.Path.{◌≡◌, refl, ap, subst}
use native.Mathlib.Nat.{pow-suc, one-le-pow, mod-lt, le_refl}
use native.Mathlib.Omega.{arith}

module _ (last : ℕ → ℕ) (op : ℕ → ℕ → ℕ) where
  -- A count of digits that the first number does not reach is not looked at.
  digits-enough : (a b : ℕ) (k l : ℕ) → a ≤ k → a ≤ l → digits last op k a b ≡ digits last op l a b
  digits-enough zero b zero zero h h' = refl
  digits-enough zero b zero (suc l) h h' = refl
  digits-enough zero b (suc k) zero h h' = refl
  digits-enough zero b (suc k) (suc l) h h' = refl
  digits-enough (suc a) b zero l h h' = absurd (omega arith)
  digits-enough (suc a) b (suc k) zero h h' = absurd (omega arith)
  digits-enough (suc a) b (suc k) (suc l) h h' =
      rw (digits-enough (suc a / 2) (b / 2) k l (omega arith) (omega arith))

  bitwise-lowest :
      (a b : ℕ)
      → bitwise last op (suc a) b ≡ bitwise last op (suc a / 2) (b / 2) * 2 + op (suc a % 2) (b % 2)
  bitwise-lowest a b =
      rw (digits-enough (suc a / 2) (b / 2) a (suc a / 2) (omega arith) (omega arith)) refl

pub bit_and-lowest : (a b : ℕ) → bit_and a b ≡ bit_and (a / 2) (b / 2) * 2 + min (a % 2) (b % 2)
bit_and-lowest zero b = simp bit_and-bitwise (omega arith)
bit_and-lowest (suc a) b = simp bit_and-bitwise (bitwise-lowest _ min a b)

bit_or-lowest : (a b : ℕ) → bit_or a b ≡ bit_or (a / 2) (b / 2) * 2 + max (a % 2) (b % 2)
bit_or-lowest zero b = simp bit_or-bitwise (omega arith)
bit_or-lowest (suc a) b = simp bit_or-bitwise (bitwise-lowest _ max a b)

bit_or-zero : (n a : ℕ) → a ≤ n → bit_or a 0 ≡ a
bit_or-zero zero zero h = refl
bit_or-zero zero (suc a) h = absurd (omega arith)
bit_or-zero (suc n) zero h = refl
bit_or-zero (suc n) (suc a) h =
    omega (arith, bit_or-lowest (suc a) 0, bit_or-zero n (suc a / 2) (omega arith))

pub bit_and-zero : (n a : ℕ) → a ≤ n → bit_and a 0 ≡ 0
bit_and-zero zero zero h = refl
bit_and-zero zero (suc a) h = absurd (omega arith)
bit_and-zero (suc n) zero h = refl
bit_and-zero (suc n) (suc a) h =
    omega (arith, bit_and-lowest (suc a) 0, bit_and-zero n (suc a / 2) (omega arith))

mask-add : (k q r : ℕ) → r < 2 ^ k → bit_and (q * 2 ^ k + r) (2 ^ k - 1) ≡ r
mask-add zero q r h = omega (arith, bit_and-zero _ (q * 1 + r) (le_refl _))
mask-add (suc k) q r h =
    let double : q * 2 ^ suc k ≡ 2 * (q * 2 ^ k) =
      omega (arith, ap (λ (t : ℕ). q * t) (pow-suc 2 k)) in
    let half : (q * 2 ^ suc k + r) / 2 ≡ q * 2 ^ k + r / 2 = omega arith in
    let ones : (2 ^ suc k - 1) / 2 ≡ 2 ^ k - 1 = omega (arith, pow-suc 2 k) in
    let below : r / 2 < 2 ^ k = omega (arith, pow-suc 2 k) in
    let rest : bit_and ((q * 2 ^ suc k + r) / 2) ((2 ^ suc k - 1) / 2) ≡ r / 2 =
      rw (half, ones) (mask-add k q (r / 2) below) in
    omega (
      arith,
      bit_and-lowest (q * 2 ^ suc k + r) (2 ^ suc k - 1),
      rest,
      pow-suc 2 k,
      one-le-pow k 2 (omega arith),
    )

-- A mask of the lowest `k` bits is the remainder by `2 ^ k`.
pub bit_and-mask : (k a : ℕ) → bit_and a (2 ^ k - 1) ≡ a % 2 ^ k
bit_and-mask k a =
    let split : a / 2 ^ k * 2 ^ k + a % 2 ^ k ≡ a = grind arith in
    subst (λ t. bit_and t (2 ^ k - 1) ≡ a % 2 ^ k) split
      (mask-add k (a / 2 ^ k) (a % 2 ^ k) (mod-lt a (one-le-pow k 2 (omega arith))))

pub bit_or_two : (w : ℕ) → bit_or w 2 ≡ w / 4 * 4 + 2 + w % 2
bit_or_two w = omega (
  arith,
  bit_or-lowest w 2,
  bit_or-lowest (w / 2) 1,
  bit_or-zero (w / 2 / 2) (w / 2 / 2) (le_refl _),
)

pub bit_and_two : (w : ℕ) → bit_and w 2 ≡ w / 2 % 2 * 2
bit_and_two w = omega (arith, bit_and-lowest w 2, bit_and-mask 1 (w / 2))

-- `w & ~2` on 32 bits.
pub bit_and_not_two : (w : ℕ) → w < 2 ^ 32 → bit_and w 0xfffffffd ≡ w / 4 * 4 + w % 2
bit_and_not_two w h = omega (
  arith,
  bit_and-lowest w 0xfffffffd,
  bit_and-lowest (w / 2) 0x7ffffffe,
  bit_and-mask 30 (w / 2 / 2),
)

-- A bit above those of a number of two bits.
pub bit_and_above : (x n : ℕ) → x < 4 → bit_and x (2 ^ suc (suc n)) ≡ 0
bit_and_above x n h =
    let p = one-le-pow n 2 (omega arith) in
    omega (
      arith,
      pow-suc 2 n,
      pow-suc 2 (suc n),
      bit_and-lowest x (2 ^ suc (suc n)),
      bit_and-lowest (x / 2) (2 ^ suc (suc n) / 2),
      zero-bit_and x n h,
    )
  where
    zero-bit_and : (x n : ℕ) → x < 4 → bit_and (x / 2 / 2) (2 ^ suc (suc n) / 2 / 2) ≡ 0
    zero-bit_and x n h = let e : x / 2 / 2 ≡ 0 = omega arith in rw e (simp bit_and-bitwise refl)
