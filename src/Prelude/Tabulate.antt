-- ===== src/Prelude/Tabulate.antt =====
-- The list of the values of a function at 0, 1, ..., n - 1.
use Prim.Native.Nat.{ℕ, zero, suc, ◌+◌, ◌<◌}
use mathlib.Core.Path.{◌≡◌, refl, ap, ap₂, sym, ◌∙◌}
use mathlib.Core.List.{List, [], ◌∷◌, ◌++◌}
use native.Mathlib.Omega.{arith}
use gicame.Prelude.Lists.{length, get_or}

module _ {ℓ} {A : Type ℓ} where
  abbrev pub tabulate : ℕ → (ℕ → A) → List A
  tabulate zero f = []
  tabulate (suc n) f = f 0 ∷ tabulate n (λ i. f (suc i))

  pub length-tabulate : (n : ℕ) (f : ℕ → A) → length (tabulate n f) ≡ n
  length-tabulate zero f = refl
  length-tabulate (suc n) f = ap suc (length-tabulate n (λ i. f (suc i)))

  pub tabulate-ext :
      (n : ℕ) (f g : ℕ → A) → ((i : ℕ) → i < n → f i ≡ g i) → tabulate n f ≡ tabulate n g
  tabulate-ext zero f g h = refl
  tabulate-ext (suc n) f g h =
      ap₂ ◌∷◌ (h 0 (omega arith))
        (tabulate-ext n (λ i. f (suc i)) (λ i. g (suc i)) (λ i lt. h (suc i) (omega arith)))

  pub tabulate-add :
      (m n : ℕ) (f : ℕ → A) → tabulate (m + n) f ≡ tabulate m f ++ tabulate n (λ i. f (m + i))
  tabulate-add zero n f =
      let e : zero + n ≡ n = omega arith in
      ap (λ k. tabulate k f) e
      ∙ tabulate-ext n f (λ i. f (zero + i)) (λ i lt. ap f {y = zero + i} (omega arith))
  tabulate-add (suc m) n f =
      let e : suc m + n ≡ suc (m + n) = omega arith in
      ap (λ k. tabulate k f) e
      ∙ ap (λ r. f 0 ∷ r)
          (tabulate-add m n (λ i. f (suc i))
            ∙ ap (λ r. tabulate m (λ i. f (suc i)) ++ r)
                (tabulate-ext n (λ i. f (suc (m + i))) (λ i. f (suc m + i))
                  (λ i lt. ap f {y = suc m + i} (omega arith))))

  pub tabulate-get_or : (xs : List A) (d : A) → tabulate (length xs) (λ i. get_or xs i d) ≡ xs
  tabulate-get_or [] d = refl
  tabulate-get_or (x ∷ xs) d = ap (λ r. x ∷ r) (tabulate-get_or xs d)

  -- A list of known length is its table.
  pub tabulate-eq :
      (n : ℕ) (xs : List A) (f : ℕ → A) (d : A)
      → length xs ≡ n
      → ((i : ℕ) → i < n → f i ≡ get_or xs i d)
      → tabulate n f ≡ xs
  tabulate-eq n xs f d e h =
      tabulate-ext n f (λ i. get_or xs i d) h
      ∙ ap (λ k. tabulate k (λ i. get_or xs i d)) (sym e)
      ∙ tabulate-get_or xs d

  pub get_or-tabulate : (n i : ℕ) (f : ℕ → A) (d : A) → i < n → get_or (tabulate n f) i d ≡ f i
  get_or-tabulate zero i f d h = absurd (omega arith)
  get_or-tabulate (suc n) zero f d h = refl
  get_or-tabulate (suc n) (suc i) f d h = get_or-tabulate n i (λ j. f (suc j)) d (omega arith)
