-- ===== src/Machine.antt =====
-- Unsigned integers of the machine: their largest values and `saturating_add`.
use topgent.Base.{ℕ, ◌+◌, ◌-◌, ◌^◌, ◌≤◌, leb, if◌then◌else◌, arith}

abbrev pub u32_max : ℕ
u32_max = 2 ^ 32 - 1

abbrev pub u64_max : ℕ
u64_max = 2 ^ 64 - 1

-- `usize` is taken at 64 bits.
abbrev pub usize_max : ℕ
usize_max = 2 ^ 64 - 1

-- `a.saturating_add(b)` at the width whose largest value comes first.
unfoldable pub saturating_add : ℕ → ℕ → ℕ → ℕ
saturating_add bound a b = if leb (a + b) bound then a + b else bound

pub saturating_add_le : (bound a b : ℕ) → saturating_add bound a b ≤ bound
unfolding saturating_add
saturating_add_le bound a b = ground arith
