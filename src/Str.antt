-- ===== src/Str.antt =====
-- lib/string.c, which the kernel and the user programs share. Memory is a function from an address
-- to a byte, and a pointer is an address; no object reaches the end of the address space, so that
-- `p++` does not wrap. A loop that stops at a zero byte has a round for each address there is, and
-- `none` is a string that never ends. memset and memmove are assembly.
pub mod Length
pub mod Copy
pub mod Compare
mod Tests
use jos_kernel.Base.{
  Option, if◌then◌else◌, ltb, none, not, some, suc, update, zero, ℕ, ◌%◌, ◌&&◌, ◌+◌, ◌-◌, ◌==◌, ◌^◌,
  ◌||◌,
}

-- As many rounds as there are addresses.
abbrev pub addresses : ℕ
addresses = 2 ^ 32

unfoldable pub strlen_loop : (ℕ → ℕ) → ℕ → ℕ → ℕ → Option ℕ
strlen_loop m zero s n = none
strlen_loop m (suc fuel) s n =
    let rest = strlen_loop m fuel (s + 1) (n + 1) in if m s == 0 then some n else rest

unfoldable pub strlen : (ℕ → ℕ) → ℕ → Option ℕ
strlen m s = strlen_loop m addresses s 0

unfoldable pub strnlen_loop : (ℕ → ℕ) → ℕ → ℕ → ℕ → ℕ
strnlen_loop m s zero n = n
strnlen_loop m s (suc size) n =
    let rest = strnlen_loop m (s + 1) size (n + 1) in if m s == 0 then n else rest

unfoldable pub strnlen : (ℕ → ℕ) → ℕ → ℕ → ℕ
strnlen m s size = strnlen_loop m s size 0

unfoldable pub strcpy_loop : ℕ → ℕ → ℕ → (ℕ → ℕ) → Option (ℕ → ℕ)
strcpy_loop zero dst src m = none
strcpy_loop (suc fuel) dst src m =
    let rest = strcpy_loop fuel (dst + 1) (src + 1) (update m dst (m src)) in
    if m src == 0 then some (update m dst (m src)) else rest

-- The memory after the call; the result of the function is `dst`.
unfoldable pub strcpy : ℕ → ℕ → (ℕ → ℕ) → Option (ℕ → ℕ)
strcpy dst src m = strcpy_loop addresses dst src m

unfoldable pub strcat : ℕ → ℕ → (ℕ → ℕ) → Option (ℕ → ℕ)
strcat dst src m = elim (strlen m dst) [ none ↦ none | some len ↦ strcpy (dst + len) src m ]

-- One round for each byte of `dst`.
unfoldable pub strncpy : ℕ → ℕ → ℕ → (ℕ → ℕ) → ℕ → ℕ
strncpy dst src zero m = m
strncpy dst src (suc n) m =
    strncpy (dst + 1) (if m src == 0 then src else src + 1) n (update m dst (m src))

-- The loop of strlcpy, with `size - 1` rounds: the memory, and `dst` at the end.
unfoldable pub strlcpy_loop : ℕ → ℕ → ℕ → (ℕ → ℕ) → (ℕ → ℕ) × ℕ
strlcpy_loop dst src zero m = (m, dst)
strlcpy_loop dst src (suc n) m =
    let rest = strlcpy_loop (dst + 1) (src + 1) n (update m dst (m src)) in
    if m src == 0 then (m, dst) else rest

unfoldable pub strlcpy : ℕ → ℕ → ℕ → (ℕ → ℕ) → (ℕ → ℕ) × ℕ
strlcpy dst src zero m = (m, 0)
strlcpy dst src (suc size) m =
    let (m', end) = strlcpy_loop dst src size m in (update m' end 0, end - dst)

-- The difference of two bytes: a sign and a magnitude.
pub data Difference : Type 0 where
  same : Difference
  above below : ℕ → Difference

abbrev pub difference : ℕ → ℕ → Difference
difference a b = if a == b then same else if ltb b a then above (a - b) else below (b - a)

unfoldable pub strcmp_loop : (ℕ → ℕ) → ℕ → ℕ → ℕ → Option Difference
strcmp_loop m zero p q = none
strcmp_loop m (suc fuel) p q =
    let rest = strcmp_loop m fuel (p + 1) (q + 1) in
    if not (m p == 0) && m p == m q then rest else some (difference (m p) (m q))

unfoldable pub strcmp : (ℕ → ℕ) → ℕ → ℕ → Option Difference
strcmp m p q = strcmp_loop m addresses p q

unfoldable pub strncmp : (ℕ → ℕ) → ℕ → ℕ → ℕ → Difference
strncmp m p q zero = same
strncmp m p q (suc n) =
    let rest = strncmp m (p + 1) (q + 1) n in
    if not (m p == 0) && m p == m q then rest else difference (m p) (m q)

-- A null pointer is `some none`.
unfoldable pub strchr_loop : (ℕ → ℕ) → ℕ → ℕ → ℕ → Option (Option ℕ)
strchr_loop m zero s c = none
strchr_loop m (suc fuel) s c =
    let rest = strchr_loop m fuel (s + 1) c in
    if m s == 0 then some none else if m s == c then some (some s) else rest

unfoldable pub strchr : (ℕ → ℕ) → ℕ → ℕ → Option (Option ℕ)
strchr m s c = strchr_loop m addresses s c

unfoldable pub strfind_loop : (ℕ → ℕ) → ℕ → ℕ → ℕ → Option ℕ
strfind_loop m zero s c = none
strfind_loop m (suc fuel) s c =
    let rest = strfind_loop m fuel (s + 1) c in if m s == 0 || m s == c then some s else rest

unfoldable pub strfind : (ℕ → ℕ) → ℕ → ℕ → Option ℕ
strfind m s c = strfind_loop m addresses s c

unfoldable pub memcmp : (ℕ → ℕ) → ℕ → ℕ → ℕ → Difference
memcmp m v w zero = same
memcmp m v w (suc n) =
    let rest = memcmp m (v + 1) (w + 1) n in
    if not (m v == m w) then difference (m v) (m w) else rest

unfoldable pub memfind : (ℕ → ℕ) → ℕ → ℕ → ℕ → ℕ
memfind m s c zero = s
memfind m s c (suc n) = let rest = memfind m (s + 1) c n in if m s == c % 256 then s else rest
