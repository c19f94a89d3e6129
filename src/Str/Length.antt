-- ===== src/Str/Length.antt =====
-- strlen, strnlen, strchr and strfind of lib/string.c.
use jos_kernel.Base.{==_ne, ap, arith, min, some, suc, zero, ℕ, ◌+◌, ◌<◌, ◌∙◌, ◌≡◌, ◌≢◌}
use jos_kernel.Str.{addresses, strlen, strlen_loop, strnlen, strnlen_loop}

-- A string of `n` bytes at `s`: no byte of it is zero, and a zero byte follows.
abbrev pub IsString : (ℕ → ℕ) → ℕ → ℕ → Type 0
IsString m s zero = m s ≡ 0
IsString m s (suc n) = (m s ≢ 0) × IsString m (s + 1) n

strlen_loop-IsString :
    (m : ℕ → ℕ) (s n fuel a : ℕ) → IsString m s n → n < fuel → strlen_loop m fuel s a ≡ some (a + n)
unfolding strlen_loop
strlen_loop-IsString m s n zero a h b = absurd (omega arith)
strlen_loop-IsString m s zero (suc fuel) a h b = rw h (ap some (omega arith))
strlen_loop-IsString m s (suc n) (suc fuel) a (h, t) b =
    rw (==_ne (m s) 0 h)
      (strlen_loop-IsString m (s + 1) n fuel (a + 1) t (omega arith) ∙ ap some (omega arith))

strnlen_loop-IsString :
    (m : ℕ → ℕ) (s n size a : ℕ) → IsString m s n → strnlen_loop m s size a ≡ a + min n size
unfolding strnlen_loop
strnlen_loop-IsString m s n zero a h = omega arith
strnlen_loop-IsString m s zero (suc size) a h = rw h (omega arith)
strnlen_loop-IsString m s (suc n) (suc size) a (h, t) =
    rw (==_ne (m s) 0 h) (omega (arith, strnlen_loop-IsString m (s + 1) n size (a + 1) t))

-- For a string of `n` bytes in memory strlen returns `n`, and strnlen the smaller of `n` and its
-- bound.
pub strlen_lem :
    (m : ℕ → ℕ) (s n size : ℕ)
    → IsString m s n
    → n < addresses
    → (strlen m s ≡ some n) × (strnlen m s size ≡ min n size)
unfolding strlen strnlen
strlen_lem m s n size h b = (
  strlen_loop-IsString m s n addresses 0 h b ∙ ap some (omega arith),
  strnlen_loop-IsString m s n size 0 h ∙ omega arith,
)
