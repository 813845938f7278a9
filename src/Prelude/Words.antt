-- ===== src/Prelude/Words.antt =====
-- The arithmetic of `u16`, `u32` and `u64`: a word is the number that its bits stand for, and a
-- signed word is its bit pattern.
use Prim.Native.Nat.{ℕ, ◌+◌, ◌-◌, ◌*◌, ◌%◌, ◌^◌, ◌<◌}

abbrev pub u32 : ℕ → ℕ
u32 n = n % 2 ^ 32

abbrev pub u16 : ℕ → ℕ
u16 n = n % 2 ^ 16

-- `a - b` on w bits.
abbrev pub sub_wrap : ℕ → ℕ → ℕ → ℕ
sub_wrap w a b = (a + 2 ^ w - b % 2 ^ w) % 2 ^ w

abbrev pub sub32 : ℕ → ℕ → ℕ
sub32 = sub_wrap 32

-- `x << k` on w bits.
abbrev pub shl_wrap : ℕ → ℕ → ℕ → ℕ
shl_wrap w x k = x * 2 ^ k % 2 ^ w

abbrev pub IsByte : ℕ → Type 0
IsByte b = b < 256

-- An offset that may point backwards; `negsuc n` is -(n + 1).
pub data ℤ : Type 0 where
  pos : ℕ → ℤ
  negsuc : ℕ → ℤ
