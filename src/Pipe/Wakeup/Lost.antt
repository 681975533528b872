-- ===== src/Pipe/Wakeup/Lost.antt =====
-- The wakeup that a killed writer leaves out.
use xv.Prelude.{
  ℕ, ◌<◌, ◌≡◌, Bool, true, false, Option, arith, ◌+◌, ◌∙◌, some, ◌∷◌, [], suc, ◌-◌, refl,
}
use xv.Pipe.{Pipe, refused, pipewrite, pipewrite_loop, put}
use xv.Pipe.Contents.{IsValid, held, contents, is_full_lem, contents-put}
use xv.Pipe.Wakeup.{Reader, after_write}

killed_midway :
    (copyin : ℕ → Option ℕ) (killed : ℕ → Bool) (addr left ch : ℕ) (p : Pipe)
    → IsValid p
    → held p ≡ 0
    → p.readopen ≡ true
    → copyin (addr + 0) ≡ some ch
    → killed 0 ≡ false
    → killed 1 ≡ true
    → pipewrite_loop copyin killed addr (suc (suc left)) 0 p ≡ (refused, put p ch)
unfolding pipewrite_loop put
killed_midway copyin killed addr left ch p v empty o there live dead = ground (arith, is_full_lem v)

-- A reader is left asleep on a byte: if a writer sends the byte at `addr` to an empty pipe and is
-- found killed in the next round, `pipewrite` returns -1 and does not wake the reader.
pub lost_wakeup :
    (copyin : ℕ → Option ℕ) (killed : ℕ → Bool) (addr n m ch : ℕ) (p : Pipe)
    → IsValid p
    → held p ≡ 0
    → p.readopen ≡ true
    → 1 < n
    → copyin (addr + 0) ≡ some ch
    → killed 0 ≡ false
    → killed 1 ≡ true
    → let s = after_write n (Reader.asleep m) (pipewrite copyin killed addr n 0 p) in
      (s.reader ≡ Reader.asleep m) × (contents s.pipe ≡ ch ∷ [])
unfolding after_write pipewrite
lost_wakeup copyin killed addr n m ch p v empty o lt there live dead =
    let e : n - 0 ≡ suc (suc (n - 2)) = omega arith in
    rw (e, killed_midway copyin killed addr (n - 2) ch p v empty o there live dead)
      (refl, contents-put v (omega arith) ch ∙ rw empty)
