-- ===== src/Prelude/Bits.antt =====
-- `bit_and` with a variable, taken apart at the lowest digit.
use Prim.Native.Nat.{ℕ, zero, suc, ◌+◌, ◌*◌, ◌/◌, ◌%◌, ◌≤◌, min, bit_and, digits, bit_and-bitwise}
use mathlib.Core.Path.{◌≡◌, refl, ap}
use native.Mathlib.Omega.{arith}

-- The digits that two numbers share, with fuel.
abbrev shared : ℕ → ℕ → ℕ → ℕ
shared fuel flake mask = digits (λ y. zero) min fuel flake mask

-- Any two amounts of fuel that suffice give the same digits.
shared-shared :
    (flake mask fuel more : ℕ)
    → flake ≤ fuel
    → flake ≤ more
    → shared fuel flake mask ≡ shared more flake mask
shared-shared zero mask zero zero h k = refl
shared-shared zero mask zero (suc more) h k = refl
shared-shared zero mask (suc fuel) zero h k = refl
shared-shared zero mask (suc fuel) (suc more) h k =
    omega (arith, shared-shared (0 / 2) (mask / 2) fuel more (omega arith) (omega arith))
shared-shared (suc x) mask zero more h k = absurd (omega arith)
shared-shared (suc x) mask (suc fuel) zero h k = absurd (omega arith)
shared-shared (suc x) mask (suc fuel) (suc more) h k =
    let halves = shared-shared (suc x / 2) (mask / 2) fuel more (omega arith) (omega arith) in
    omega (arith, halves)

pub zero-bit_and : (mask : ℕ) → bit_and 0 mask ≡ 0
zero-bit_and mask = bit_and-bitwise 0 mask

pub bit_and_step :
    (flake mask : ℕ)
    → bit_and flake mask ≡ bit_and (flake / 2) (mask / 2) * 2 + min (flake % 2) (mask % 2)
bit_and_step zero mask = omega (arith, zero-bit_and (mask / 2), zero-bit_and mask)
bit_and_step (suc x) mask =
    let fuel = shared-shared (suc x / 2) (mask / 2) x (suc x / 2) (omega arith) (omega arith) in
    omega (arith, fuel, bit_and-bitwise (suc x / 2) (mask / 2), bit_and-bitwise (suc x) mask)

-- By strong induction, through a bound.
below-bit_and-zero : (bound flake : ℕ) → flake ≤ bound → bit_and flake 0 ≡ 0
below-bit_and-zero bound zero h = refl
below-bit_and-zero zero (suc x) h = absurd (omega arith)
below-bit_and-zero (suc bound) (suc x) h =
    let half = below-bit_and-zero bound (suc x / 2) (omega arith) in
    omega (arith, half, bit_and_step (suc x) 0)

pub bit_and-zero : (flake : ℕ) → bit_and flake 0 ≡ 0
bit_and-zero flake = below-bit_and-zero flake flake (omega arith)

-- A mask that ends in 0, and one that ends in 1.
pub bit_and_even : (flake mask : ℕ) → bit_and flake (mask * 2) ≡ bit_and (flake / 2) mask * 2
bit_and_even flake mask =
    let half : mask * 2 / 2 ≡ mask = omega arith in
    omega (arith, bit_and_step flake (mask * 2), ap (bit_and (flake / 2)) half)

pub bit_and_odd :
    (flake mask : ℕ) → bit_and flake (mask * 2 + 1) ≡ bit_and (flake / 2) mask * 2 + flake % 2
bit_and_odd flake mask =
    let half : (mask * 2 + 1) / 2 ≡ mask = omega arith in
    omega (arith, bit_and_step flake (mask * 2 + 1), ap (bit_and (flake / 2)) half)
