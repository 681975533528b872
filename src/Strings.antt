-- ===== src/Strings.antt =====
-- kernel/string.c over a memory of bytes: a function from addresses to numbers below 256. Addresses
-- do not wrap around.
pub mod Move
pub mod Copy
pub mod Compare
mod Tests
use xv.Prelude.{
  ℕ, zero, suc, ◌+◌, ◌-◌, ◌%◌, not, ◌&&◌, Option, none, some, ltb, ◌==◌, if◌then◌else◌, update,
}
use xv.Prelude.Int.{ℤ, pos, ◌-ℤ◌}

abbrev pub Memory : Type 0
Memory = ℕ → ℕ

-- The loop of `memset` from the address `dst + i` on.
pub memset_loop : ℕ → ℕ → ℕ → Memory → Memory
memset_loop zero p c m = m
memset_loop (suc left) p c m = memset_loop left (p + 1) c (update m p (c % 256))

pub memset : (dst c n : ℕ) → Memory → Memory
unfolding memset_loop
memset dst c n m = memset_loop n dst c m

-- `*d++ = *s++`, `n` times
pub copy_up : (n d s : ℕ) → Memory → Memory
copy_up zero d s m = m
copy_up (suc n) d s m = copy_up n (d + 1) (s + 1) (update m d (m s))

-- `*--d = *--s`, `n` times
pub copy_down : (n d s : ℕ) → Memory → Memory
copy_down zero d s m = m
copy_down (suc n) d s m = copy_down n (d - 1) (s - 1) (update m (d - 1) (m (s - 1)))

unfoldable pub memmove : (dst src n : ℕ) → Memory → Memory
unfolding copy_up copy_down
memmove dst src n m =
    if n == 0
    then m
    else if ltb src dst && ltb dst (src + n)
    then copy_down n (dst + n) (src + n) m
    else copy_up n dst src m

-- `memmove` of a count that is not 0 again
pub memcpy : (dst src n : ℕ) → Memory → Memory
unfolding memmove
memcpy = memmove

pub memcmp : (n v1 v2 : ℕ) → Memory → ℤ
memcmp zero s1 s2 m = pos 0
memcmp (suc n) s1 s2 m =
    let rest = memcmp n (s1 + 1) (s2 + 1) m in
    if not (m s1 == m s2) then pos (m s1) -ℤ pos (m s2) else rest

pub strncmp : (n p q : ℕ) → Memory → ℤ
strncmp zero p q m = pos 0
strncmp (suc n) p q m =
    let rest = strncmp n (p + 1) (q + 1) m in
    if not (m p == 0) && m p == m q then rest else pos (m p) -ℤ pos (m q)

-- `while(n-- > 0) *s++ = 0;`
pub zero_fill : (n s : ℕ) → Memory → Memory
zero_fill zero s m = m
zero_fill (suc n) s m = zero_fill n (s + 1) (update m s 0)

-- A negative `n` does what 0 does.
pub strncpy : (n s t : ℕ) → Memory → Memory
unfolding zero_fill
strncpy zero s t m = m
strncpy (suc n) s t m =
    let m' = update m s (m t) in
    let rest = strncpy n (s + 1) (t + 1) m' in if m t == 0 then zero_fill n (s + 1) m' else rest

-- The loop of `safestrcpy` with `n - 1` rounds to go, and the store behind it.
pub safestrcpy_loop : (left s t : ℕ) → Memory → Memory
safestrcpy_loop zero s t m = update m s 0
safestrcpy_loop (suc left) s t m =
    let m' = update m s (m t) in
    let rest = safestrcpy_loop left (s + 1) (t + 1) m' in
    if m t == 0 then update m' (s + 1) 0 else rest

pub safestrcpy : (n s t : ℕ) → Memory → Memory
unfolding safestrcpy_loop
safestrcpy zero s t m = m
safestrcpy (suc left) s t m = safestrcpy_loop left s t m

-- `none` where the fuel ends before a NUL.
pub strlen : (fuel n s : ℕ) → Memory → Option ℕ
strlen zero n s m = none
strlen (suc fuel) n s m =
    let rest = strlen fuel (n + 1) s m in if m (s + n) == 0 then some n else rest
