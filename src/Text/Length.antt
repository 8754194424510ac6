-- ===== src/Text/Length.antt =====
-- strlen of student-distrib/lib.c finds the first NUL.
use ece391_mp3_illinix.Prelude.{ℕ, zero, suc, ◌+◌, ◌-◌, ◌^◌, ◌≤◌, ◌<◌, ◌≡◌, ◌≢◌, some, arith}
use ece391_mp3_illinix.Memory.{Mem}
use ece391_mp3_illinix.Text.{at, strlen_from, strlen, address_space}

-- The string at `s` has `n` bytes before its NUL.
pub record CString (m : Mem) (s n : ℕ) : Type 0 where
  pub short : n < 2 ^ 32
  pub nul : at m s n ≡ 0
  pub no_nul : (i : ℕ) → i < n → at m s i ≢ 0

strlen_from_lem :
    (fuel : ℕ) (m : Mem) (s n len : ℕ)
    → CString m s n
    → len ≤ n
    → n - len < fuel
    → strlen_from fuel m s len ≡ some n
unfolding strlen_from
strlen_from_lem zero m s n len c h f = absurd (omega arith)
strlen_from_lem (suc fuel) m s n len c h f =
    ground (arith, c.nul, c.no_nul len, strlen_from_lem fuel m s n (len + 1) c)

pub strlen-eq : (m : Mem) (s n : ℕ) → CString m s n → strlen m s ≡ some n
unfolding strlen
strlen-eq m s n c = strlen_from_lem address_space m s n 0 c (omega arith) (omega (arith, c.short))
