-- ===== src/Panic.antt =====
-- Code that may call `panic`, which stops the kernel with a message.
use Prim.Native.String.{String}
use xv.Prelude.{Bool, true, false, ◌≡◌}

pub data Result {ℓ} (A : Type ℓ) : Type ℓ where
  ok : A → Result A
  panic : String → Result A

infixl 5 ◌>>=◌ ◌>>◌
abbrev pub ◌>>=◌ {ℓ κ} : {A : Type ℓ} {B : Type κ} → Result A → (A → Result B) → Result B
ok a >>= f = f a
panic e >>= f = panic e

abbrev pub ◌>>◌ {ℓ} : {B : Type ℓ} → Result (Unit {0}) → Result B → Result B
m >> k = m >>= λ _. k

-- `if(bad) panic(message);`
abbrev pub panic_if : Bool → String → Result (Unit {0})
panic_if true e = panic e
panic_if false e = ok tt

pub ok_inj {ℓ} : {A : Type ℓ} {x y : A} → ok x ≡ ok y → x ≡ y
ok_inj e = cc
