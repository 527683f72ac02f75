-- ===== src/Base/Lists.antt =====
-- Lists measured and indexed by native numbers, and predicates on their entries.
use Prim.Native.Nat.{ℕ, suc, ◌+◌}
use mathlib.Core.Path.{◌≡◌}
use mathlib.Core.List.{List, [], ◌∷◌, ◌++◌}
use mathlib.Core.Logic.{◌≢◌}
use native.Mathlib.Omega.{arith}

module _ {ℓ} {A : Type ℓ} where
  abbrev pub length : List A → ℕ
  length [] = 0
  length (x ∷ xs) = suc (length xs)

  pub length-append : (xs ys : List A) → length (xs ++ ys) ≡ length xs + length ys
  length-append [] ys = omega arith
  length-append (x ∷ xs) ys = omega (arith, length-append xs ys)

-- A predicate on every entry of a list, in the list's order.
infixr 67 ◌▸◌
pub data Each {ℓ κ} {A : Type ℓ} (P : A → Type κ) : List A → Type (ℓ ⊔ κ) where
  nil : Each P []
  ◌▸◌ : {x : A} {xs : List A} → P x → Each P xs → Each P (x ∷ xs)

module _ {ℓ} {A : Type ℓ} where
  pub data Contains (x : A) : List A → Type ℓ where
    here : {y : A} {ys : List A} → x ≡ y → Contains x (y ∷ ys)
    there : {y : A} {ys : List A} → Contains x ys → Contains x (y ∷ ys)

  -- No entry is met twice.
  pub data AllDistinct : List A → Type ℓ where
    empty : AllDistinct []
    add : {x : A} {xs : List A} → Each (λ y. y ≢ x) xs → AllDistinct xs → AllDistinct (x ∷ xs)

  pub Each-map {κ μ} :
      {P : A → Type κ} {Q : A → Type μ} {xs : List A}
      → ((x : A) → P x → Q x)
      → Each P xs
      → Each Q xs
  Each-map f nil = nil
  Each-map f (p ▸ ps) = f _ p ▸ Each-map f ps

  pub Each-both {κ μ} :
      {P : A → Type κ} {Q : A → Type μ} {xs : List A}
      → Each P xs
      → Each Q xs
      → Each (λ x. P x × Q x) xs
  Each-both nil nil = nil
  Each-both (p ▸ ps) (q ▸ qs) = (p, q) ▸ Each-both ps qs

  pub Each-append {κ} :
      {P : A → Type κ} (xs : List A) (x : A) → Each P xs → P x → Each P (xs ++ (x ∷ []))
  Each-append [] x nil p = p ▸ nil
  Each-append (y ∷ ys) x (q ▸ qs) p = q ▸ Each-append ys x qs p
