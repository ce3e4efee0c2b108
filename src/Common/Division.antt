-- ===== src/Common/Division.antt =====
-- Quotient and remainder of the next number, by a divisor that is a variable.
use Prim.Native.Nat.{ℕ, ◌+◌, ◌*◌, ◌/◌, ◌%◌, ◌<◌}
use mathlib.Core.Path.{◌≡◌, ap, ◌∙◌}
use native.Mathlib.Omega.{arith}
use native.Mathlib.Nat.{div-add-mod', mul-add-div_right, div_self, div-eq_of_lt, mod-eq-sub-div-mul}

-- Within a group of `s`.
pub div_mod_inside : (k s : ℕ) → k % s + 1 < s → ((k + 1) / s ≡ k / s) × ((k + 1) % s ≡ k % s + 1)
div_mod_inside k s h =
    let whole = div-add-mod' k s in
    let rest = mod-eq-sub-div-mul (k + 1) s in
    let next : k + 1 ≡ k / s * s + (k % s + 1) = omega (arith, whole) in
    let split = ap (λ n. n / s) next ∙ mul-add-div_right (omega arith) (k / s) (k % s + 1) in
    let same : (k + 1) / s ≡ k / s = omega (arith, split, div-eq_of_lt h) in
    (same, rest ∙ rw same (omega (arith, whole)))

-- At the end of a group of `s`.
pub div_mod_edge : (k s : ℕ) → k % s + 1 ≡ s → ((k + 1) / s ≡ k / s + 1) × ((k + 1) % s ≡ 0)
div_mod_edge k s h =
    let whole = div-add-mod' k s in
    let rest = mod-eq-sub-div-mul (k + 1) s in
    let next : k + 1 ≡ k / s * s + (k % s + 1) = omega (arith, whole) in
    let split = ap (λ n. n / s) next ∙ mul-add-div_right (omega arith) (k / s) (k % s + 1) in
    let one : (k % s + 1) / s ≡ 1 = ap (λ n. n / s) h ∙ div_self (omega arith) in
    let more : (k + 1) / s ≡ k / s + 1 = omega (arith, split, one) in
    let product : (k / s + 1) * s ≡ k / s * s + s = grind arith in
    (more, rest ∙ rw more (omega (arith, whole, product)))
