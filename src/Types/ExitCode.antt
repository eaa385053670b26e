-- ===== src/Types/ExitCode.antt =====
-- Exit codes of processes: a process that a signal ended has the code -1.
use competition_api.Prelude.{ℕ, Bool, false, ◌==◌}

-- `negsuc n` is -(n + 1).
pub data ℤ : Type 0 where
  pos : ℕ → ℤ
  negsuc : ℕ → ℤ

abbrev pub has_code : ℤ → ℕ → Bool
has_code (pos n) k = n == k
has_code (negsuc n) k = false
