-- ===== src/Vmm/Entry/Flags.antt =====
-- The flags that mapping a page sets, read as digits of the entry.
use toy_kernel.Common.{ℕ, ◌-◌, ◌/◌, ◌%◌, ◌^◌, ◌<◌, max, bit_and, ◌≡◌, ◌∙◌, arith}
use toy_kernel.Common.Bits.{bit, bit-or, and-two_pow, bit_or-lt, bit_and-lt, bit-and}
use toy_kernel.Vmm.Entry.{set_attribute, clear_attribute, pte_present, pte_read_write, pte_user}

pub set_attribute-lt : (n e attr : ℕ) → e < 2 ^ n → attr < 2 ^ n → set_attribute e attr < 2 ^ n
unfolding set_attribute
set_attribute-lt n e attr he ha = bit_or-lt n e attr he ha

-- The three lowest flags after one is set.
pub set_attribute-present : (e attr : ℕ) → set_attribute e attr % 2 ≡ max (e % 2) (attr % 2)
unfolding set_attribute bit
set_attribute-present e attr = bit-or e attr 0

pub set_attribute-write :
    (e attr : ℕ) → set_attribute e attr / 2 % 2 ≡ max (e / 2 % 2) (attr / 2 % 2)
unfolding set_attribute bit
set_attribute-write e attr = bit-or e attr 1

pub set_attribute-user :
    (e attr : ℕ) → set_attribute e attr / 2 / 2 % 2 ≡ max (e / 2 / 2 % 2) (attr / 2 / 2 % 2)
unfolding set_attribute bit
set_attribute-user e attr = bit-or e attr 2

pub test_present : (e : ℕ) → bit_and e pte_present ≡ e % 2
unfolding bit
test_present e = and-two_pow e 0 ∙ omega arith

pub clear_present : (e : ℕ) → e < 2 ^ 31 → clear_attribute e pte_present % 2 ≡ 0
unfolding clear_attribute bit
clear_present e h = bit-and e (2 ^ 32 - 1 - pte_present) 0 ∙ omega arith

pub clear_attribute-lt : (n e attr : ℕ) → e < 2 ^ n → clear_attribute e attr < 2 ^ n
unfolding clear_attribute
clear_attribute-lt n e attr h = bit_and-lt n e (2 ^ 32 - 1 - attr) h

-- `map_page` sets two flags, and `map_page_user` three.
abbrev pub kernel_flags : ℕ → ℕ
kernel_flags e = set_attribute (set_attribute e pte_present) pte_read_write

abbrev pub user_flags : ℕ → ℕ
user_flags e = set_attribute (kernel_flags e) pte_user

pub kernel_flags-lt : (e : ℕ) → e < 2 ^ 31 → kernel_flags e < 2 ^ 31
kernel_flags-lt e h =
    set_attribute-lt 31 (set_attribute e 1) 2 (set_attribute-lt 31 e 1 h (omega arith))
      (omega arith)

pub user_flags-lt : (e : ℕ) → e < 2 ^ 31 → user_flags e < 2 ^ 31
user_flags-lt e h = set_attribute-lt 31 (kernel_flags e) 4 (kernel_flags-lt e h) (omega arith)

pub kernel_flags-present : (e : ℕ) → kernel_flags e % 2 ≡ 1
kernel_flags-present e =
    omega (arith, set_attribute-present (set_attribute e 1) 2, set_attribute-present e 1)

pub user_flags-present : (e : ℕ) → user_flags e % 2 ≡ 1
user_flags-present e =
    omega (arith, set_attribute-present (kernel_flags e) 4, kernel_flags-present e)

pub user_flags-user : (e : ℕ) → user_flags e / 2 % 4 ≡ 3
user_flags-user e = omega (
  arith,
  set_attribute-write (kernel_flags e) 4,
  set_attribute-write (set_attribute e 1) 2,
  set_attribute-user (kernel_flags e) 4,
)
