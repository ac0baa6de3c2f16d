-- ===== src/Prelude/Wrap.antt =====
-- A remainder by conditional subtraction.
use gicame.Prelude.Tests.{ltb, if◌then◌else◌}
use Prim.Native.Nat.{ℕ, zero, suc, ◌+◌, ◌-◌, ◌%◌, ◌≤◌, ◌<◌, mod_helper}
use Prim.Native.Nat.mod
use mathlib.Core.Path.{◌≡◌, ap, ◌∙◌}
use mathlib.Core.Logic.{inl, inr}
use gicame.Prelude.Tests.{Bool-cases}
use native.Mathlib.Omega.{arith}

mod_helper-fits : (k m n j : ℕ) → n ≤ j → mod_helper k m n j ≡ n + k
mod_helper-fits k m zero j h = omega arith
mod_helper-fits k m (suc n) zero h = absurd (omega arith)
mod_helper-fits k m (suc n) (suc j) h = mod_helper-fits (suc k) m n j (omega arith) ∙ omega arith

mod_helper-starts_afresh :
    (k m n j : ℕ) → j < n → mod_helper k m n j ≡ mod_helper zero m (n - suc j) m
mod_helper-starts_afresh k m zero j h = absurd (omega arith)
mod_helper-starts_afresh k m (suc n) zero h =
    let e : n ≡ suc n - 1 = omega arith in ap (λ (x : ℕ). mod_helper zero m x m) e
mod_helper-starts_afresh k m (suc n) (suc j) h =
    let e : n - suc j ≡ suc n - suc (suc j) = omega arith in
    mod_helper-starts_afresh (suc k) m n j (omega arith) ∙ ap (λ (x : ℕ). mod_helper zero m x m) e

pub wrap_once : (x c : ℕ) → x < c + c → x % c ≡ (if ltb x c then x else x - c)
wrap_once x zero h = absurd (omega arith)
wrap_once x (suc m) h = elim (Bool-cases (ltb x (suc m))) [
  | inl low ↦ mod.suc x m ∙ mod_helper-fits zero m x m (grind arith) ∙ ground arith
  | inr high ↦
      mod.suc x m
      ∙ mod_helper-starts_afresh zero m x m (grind arith)
      ∙ mod_helper-fits zero m (x - suc m) m (omega arith)
      ∙ ground arith
]
