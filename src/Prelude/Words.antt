-- ===== src/Prelude/Words.antt =====
-- Machine words, and powers of two.
use Prim.Native.Nat.{ℕ, suc, ◌*◌, ◌%◌, ◌^◌, ◌<◌, min}
use mathlib.Core.Path.{◌≡◌}
use native.Mathlib.Nat.{pow-suc}
use native.Mathlib.Omega.{arith}

-- unsigned int, 32 bits
abbrev pub u32 : ℕ → ℕ
u32 n = n % 2 ^ 32

pub pow_two : (k ms : ℕ) → 2 ^ k * (2 * ms) ≡ 2 ^ suc k * ms
pow_two k ms = rw (pow-suc) (omega arith)

-- Doubling under a cap that leaves room for the carry does not wrap.
pub min_double : (ms cap : ℕ) → cap < 2 ^ 31 → min (u32 (2 * min ms cap)) cap ≡ min (2 * ms) cap
min_double ms cap h = omega arith
