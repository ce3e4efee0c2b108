-- ===== src/Common/Bits.antt =====
-- The binary digits of a number, and what `|` and `&` do to each digit.
pub mod Split
use Prim.Native.Nat.{digits, bit_and-bitwise, bit_or-bitwise}
use native.Mathlib.Nat.{pow-suc, le_refl, one-le-pow}
use mathlib.Core.Path.{ap₂}
use toy_kernel.Common.{
  ℕ, zero, suc, ◌+◌, ◌-◌, ◌*◌, ◌/◌, ◌%◌, ◌^◌, ◌≤◌, ◌<◌, min, max, bit_and, bit_or, ◌≡◌, refl, ap,
  ◌∙◌, sym, arith, ◌==◌, if◌then◌else◌,
}

-- Digit number `j`, the lowest being number 0.
unfoldable pub bit : ℕ → ℕ → ℕ
bit w zero = w % 2
bit w (suc j) = bit (w / 2) j

-- More fuel than digits makes no difference.
enough : (z : ℕ → ℕ) (f : ℕ → ℕ → ℕ) (k a b : ℕ) → digits z f (a + k) a b ≡ digits z f a a b
enough z f k a b = go (a + k) a a b (omega arith) (le_refl a)
  where
    go : (n m a b : ℕ) → a ≤ n → a ≤ m → digits z f n a b ≡ digits z f m a b
    go zero zero zero b p q = refl
    go zero zero (suc a) b p q = elim p [ ]
    go zero (suc m) zero b p q = refl
    go zero (suc m) (suc a) b p q = elim p [ ]
    go (suc n) zero zero b p q = refl
    go (suc n) zero (suc a) b p q = elim q [ ]
    go (suc n) (suc m) zero b p q = refl
    go (suc n) (suc m) (suc a) b p q =
        ap (λ t. t * 2 + f (suc a % 2) (b % 2))
          (go n m (suc a / 2) (b / 2) (omega arith) (omega arith))

pub or_zero : (b : ℕ) → bit_or 0 b ≡ b
or_zero b = bit_or-bitwise 0 b

pub and_zero : (b : ℕ) → bit_and 0 b ≡ 0
and_zero b = bit_and-bitwise 0 b

suc_split : (a : ℕ) → (k : ℕ) × (a ≡ suc a / 2 + k)
suc_split a = (a - suc a / 2, omega arith)

-- `|` and `&` take the lowest digits together and go on with the rest.
pub bit_or-low : (a b : ℕ) → bit_or a b ≡ bit_or (a / 2) (b / 2) * 2 + max (a % 2) (b % 2)
bit_or-low zero b = omega (arith, or_zero b, or_zero (b / 2))
bit_or-low (suc a) b =
    let (k, e) = suc_split a in
    bit_or-bitwise (suc a) b
    ∙ ap (λ t. t * 2 + max (suc a % 2) (b % 2))
        (ap (λ n. digits (λ y. y) max n (suc a / 2) (b / 2)) e
          ∙ enough (λ y. y) max k (suc a / 2) (b / 2)
          ∙ sym (bit_or-bitwise (suc a / 2) (b / 2)))

pub bit_and-low : (a b : ℕ) → bit_and a b ≡ bit_and (a / 2) (b / 2) * 2 + min (a % 2) (b % 2)
bit_and-low zero b = omega (arith, and_zero b, and_zero (b / 2))
bit_and-low (suc a) b =
    let (k, e) = suc_split a in
    bit_and-bitwise (suc a) b
    ∙ ap (λ t. t * 2 + min (suc a % 2) (b % 2))
        (ap (λ n. digits (λ _. 0) min n (suc a / 2) (b / 2)) e
          ∙ enough (λ _. 0) min k (suc a / 2) (b / 2)
          ∙ sym (bit_and-bitwise (suc a / 2) (b / 2)))

pub bit-lt : (w j : ℕ) → bit w j < 2
unfolding bit
bit-lt w zero = omega arith
bit-lt w (suc j) = bit-lt (w / 2) j

pub bit-or : (a b j : ℕ) → bit (bit_or a b) j ≡ max (bit a j) (bit b j)
unfolding bit
bit-or a b zero = omega (arith, bit_or-low a b)
bit-or a b (suc j) = ap (λ t. bit t j) (omega (arith, bit_or-low a b)) ∙ bit-or (a / 2) (b / 2) j

pub bit-and : (a b j : ℕ) → bit (bit_and a b) j ≡ min (bit a j) (bit b j)
unfolding bit
bit-and a b zero = omega (arith, bit_and-low a b)
bit-and a b (suc j) = ap (λ t. bit t j) (omega (arith, bit_and-low a b)) ∙ bit-and (a / 2) (b / 2) j

bit-zero : (j : ℕ) → bit 0 j ≡ 0
unfolding bit
bit-zero zero = refl
bit-zero (suc j) = bit-zero j

-- The digits of a power of two, and of `2 ^ n - 1 - 2 ^ k`, which C writes `~(1 << k)`.
pub bit-two_pow : (k j : ℕ) → bit (2 ^ k) j ≡ (if k == j then 1 else 0)
unfolding bit
bit-two_pow zero zero = refl
bit-two_pow zero (suc j) = ground (arith, bit-zero j)
bit-two_pow (suc k) zero = ground (arith, pow-suc 2 k)
bit-two_pow (suc k) (suc j) =
    ap (λ t. bit t j) (omega (arith, pow-suc 2 k)) ∙ bit-two_pow k j ∙ ground arith

pub bit-ones : (n j : ℕ) → j < n → bit (2 ^ n - 1) j ≡ 1
unfolding bit
bit-ones zero j h = elim h [ ]
bit-ones (suc n) zero h = omega (arith, pow-suc 2 n, one-le-pow n 2)
bit-ones (suc n) (suc j) h =
    ap (λ t. bit t j) (omega (arith, pow-suc 2 n, one-le-pow n 2)) ∙ bit-ones n j (omega arith)

abbrev pub bit_off : ℕ → ℕ → ℕ
bit_off n k = 2 ^ n - 1 - 2 ^ k

pub pow-pos : (k : ℕ) → 0 < 2 ^ k
pow-pos k = one-le-pow k 2 (omega arith)

pub pow-lt : (k n : ℕ) → k < n → 2 ^ k < 2 ^ n
pow-lt zero zero h = elim h [ ]
pow-lt zero (suc n) h = omega (arith, pow-suc 2 n, one-le-pow n 2)
pow-lt (suc k) zero h = elim h [ ]
pow-lt (suc k) (suc n) h = omega (arith, pow-suc 2 n, pow-suc 2 k, pow-lt k n (omega arith))

pub bit-bit_off : (n k j : ℕ) → k < n → j < n → bit (bit_off n k) j ≡ (if k == j then 0 else 1)
unfolding bit
bit-bit_off zero k j hk hj = elim hk [ ]
bit-bit_off (suc n) zero zero hk hj = omega (arith, pow-suc 2 n)
bit-bit_off (suc n) zero (suc j) hk hj =
    ap (λ t. bit t j) (omega (arith, pow-suc 2 n)) ∙ bit-ones n j (omega arith) ∙ ground arith
bit-bit_off (suc n) (suc k) zero hk hj =
    ground (arith, pow-suc 2 n, pow-suc 2 k, pow-lt k n (omega arith))
bit-bit_off (suc n) (suc k) (suc j) hk hj =
    ap (λ t. bit t j) (omega (arith, pow-suc 2 n, pow-suc 2 k, pow-lt k n (omega arith)))
    ∙ bit-bit_off n k j (omega arith) (omega arith)
    ∙ ground arith

pub bit_and-nil : (a : ℕ) → bit_and a 0 ≡ 0
bit_and-nil a = go a a (le_refl a)
  where
    go : (n a : ℕ) → a ≤ n → bit_and a 0 ≡ 0
    go n zero h = refl
    go zero (suc a) h = elim h [ ]
    go (suc n) (suc a) h = omega (arith, bit_and-low (suc a) 0, go n (suc a / 2) (omega arith))

-- Testing one digit by `&` with a power of two.
pub and-two_pow : (w k : ℕ) → bit_and w (2 ^ k) ≡ bit w k * 2 ^ k
unfolding bit
and-two_pow w zero = omega (arith, bit_and-low w 1, bit_and-nil (w / 2))
and-two_pow w (suc k) =
    bit_and-low w (2 ^ suc k)
    ∙ ap (λ t. bit_and (w / 2) t * 2 + min (w % 2) (2 ^ suc k % 2)) half
    ∙ ap₂ (λ t r. t * 2 + r) (and-two_pow (w / 2) k) even
    ∙ omega (arith, ap (λ t. bit (w / 2) k * t) (pow-suc 2 k))
  where
    half : 2 ^ suc k / 2 ≡ 2 ^ k
    half = omega (arith, pow-suc 2 k)

    even : min (w % 2) (2 ^ suc k % 2) ≡ 0
    even = omega (arith, pow-suc 2 k)

pub bit_or-lt : (n a b : ℕ) → a < 2 ^ n → b < 2 ^ n → bit_or a b < 2 ^ n
bit_or-lt zero a b ha hb = let e : a ≡ 0 = omega arith in rw e (rw (or_zero b) hb)
bit_or-lt (suc n) a b ha hb = omega (
  arith,
  pow-suc 2 n,
  bit_or-low a b,
  bit_or-lt n (a / 2) (b / 2) (omega (arith, pow-suc 2 n)) (omega (arith, pow-suc 2 n)),
)

pub bit_and-lt : (n a b : ℕ) → a < 2 ^ n → bit_and a b < 2 ^ n
bit_and-lt zero a b ha = let e : a ≡ 0 = omega arith in rw (e, and_zero b) (omega arith)
bit_and-lt (suc n) a b ha =
    omega (
      arith,
      pow-suc 2 n,
      bit_and-low a b,
      bit_and-lt n (a / 2) (b / 2) (omega (arith, pow-suc 2 n)),
    )

pub bit_or-nil : (a : ℕ) → bit_or a 0 ≡ a
bit_or-nil a = go a a (le_refl a)
  where
    go : (n a : ℕ) → a ≤ n → bit_or a 0 ≡ a
    go n zero h = refl
    go zero (suc a) h = elim h [ ]
    go (suc n) (suc a) h = omega (arith, bit_or-low (suc a) 0, go n (suc a / 2) (omega arith))

-- A number below `2 ^ k` has no digit from number `k` on.
pub bit-small : (k w : ℕ) → w < 2 ^ k → bit w k ≡ 0
unfolding bit
bit-small zero w h = omega arith
bit-small (suc k) w h = bit-small k (w / 2) (omega (arith, pow-suc 2 k))
