-- ===== src/Base/Bits.antt =====
-- Masks on binary numbers: `bit_and` digit by digit, and rounding down to a power of two.
use Prim.Native.Nat.{
  ℕ, zero, suc, ◌+◌, ◌-◌, ◌*◌, ◌/◌, ◌%◌, ◌^◌, ◌≤◌, ◌<◌, min, bit_and, digits, bit_and-bitwise,
}
use mathlib.Core.Path.{◌≡◌, refl, ap, ◌∙◌}
use native.Mathlib.Nat.{pow-suc, one-le-pow, div-div-eq-div-mul}
use native.Mathlib.Omega.{arith}

-- The digits of a conjunction do not depend on a budget that covers the first number.
budget_enough :
    (x y b c : ℕ) → x ≤ b → x ≤ c → digits (λ d. zero) min b x y ≡ digits (λ d. zero) min c x y
budget_enough zero y zero zero hb hc = refl
budget_enough zero y zero (suc c) hb hc = refl
budget_enough zero y (suc b) zero hb hc = refl
budget_enough zero y (suc b) (suc c) hb hc = refl
budget_enough (suc x) y zero c hb hc = absurd (omega arith)
budget_enough (suc x) y (suc b) zero hb hc = absurd (omega arith)
budget_enough (suc x) y (suc b) (suc c) hb hc =
    omega (arith, budget_enough (suc x / 2) (y / 2) b c (omega arith) (omega arith))

pub bit_and_halves : (x y : ℕ) → bit_and x y ≡ 2 * bit_and (x / 2) (y / 2) + min (x % 2) (y % 2)
bit_and_halves zero y = omega (arith, bit_and-bitwise 0 y, bit_and-bitwise 0 (y / 2))
bit_and_halves (suc x) y =
    let half = suc x / 2 in
    omega (
      arith,
      bit_and-bitwise half (y / 2),
      budget_enough half (y / 2) half x (omega arith) (omega arith),
      bit_and-bitwise (suc x) y,
    )

-- The mask of the digits from k on, of w, rounds down to a multiple of 2 ^ k.
pub bit_and_rounds_down :
    (w k a : ℕ) → a < 2 ^ w → k ≤ w → bit_and a (2 ^ w - 2 ^ k) ≡ a / 2 ^ k * 2 ^ k
bit_and_rounds_down zero zero zero lt le = refl
bit_and_rounds_down zero zero (suc a) lt le = absurd (omega arith)
bit_and_rounds_down zero (suc k) a lt le = absurd (omega arith)
bit_and_rounds_down (suc w) zero a lt le =
    let half : (2 ^ suc w - 1) / 2 ≡ 2 ^ w - 1 =
      omega (arith, pow-suc 2 w, one-le-pow w 2 (omega arith)) in
    let low : (2 ^ suc w - 1) % 2 ≡ 1 = omega (arith, pow-suc 2 w, one-le-pow w 2 (omega arith)) in
    let rest : bit_and (a / 2) (2 ^ w - 1) ≡ a / 2 =
      bit_and_rounds_down w zero (a / 2) (omega (arith, pow-suc 2 w)) (omega arith) ∙ omega arith in
    let step : bit_and a (2 ^ suc w - 1) ≡ 2 * (a / 2) + a % 2 =
      bit_and_halves a (2 ^ suc w - 1) ∙ rw (half, low, rest) (omega arith) in
    omega (arith, step)
bit_and_rounds_down (suc w) (suc k) a lt le =
    let half : (2 ^ suc w - 2 ^ suc k) / 2 ≡ 2 ^ w - 2 ^ k =
      omega (arith, pow-suc 2 w, pow-suc 2 k) in
    let low : (2 ^ suc w - 2 ^ suc k) % 2 ≡ 0 = omega (arith, pow-suc 2 w, pow-suc 2 k) in
    let rest = bit_and_rounds_down w k (a / 2) (omega (arith, pow-suc 2 w)) (omega arith) in
    let step : bit_and a (2 ^ suc w - 2 ^ suc k) ≡ 2 * (a / 2 / 2 ^ k * 2 ^ k) =
      bit_and_halves a (2 ^ suc w - 2 ^ suc k) ∙ rw (half, low, rest) (omega arith) in
    let quotient : a / 2 / 2 ^ k ≡ a / 2 ^ suc k =
      div-div-eq-div-mul a 2 (2 ^ k) ∙ ap (λ (d : ℕ). a / d) (omega (arith, pow-suc 2 k)) in
    step ∙ rw (quotient, pow-suc 2 k) (grind arith)
