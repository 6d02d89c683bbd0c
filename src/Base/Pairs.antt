-- ===== src/Base/Pairs.antt =====
-- What holds of every two rows of a list, the earlier one first.
use mathlib.Core.Path.{◌≡◌}
use mathlib.Core.Logic.{inl, inr}
use mathlib.Core.Bool.{Bool, false}
use mathlib.Core.Option.{Option}
use mathlib.Core.List.{List, [], ◌∷◌, ◌++◌}
use native.Mathlib.Omega.{arith}
use expense.Base.Tests.{Bool-cases}
use expense.Base.Lists.{All, filter, find, any, update}
use expense.Base.Members.{All-head, All-tail, All-snoc, All-filter, All-pair, changed}

pub data Pairwise {ℓ κ} {A : Type ℓ} (R : A → A → Type κ) : List A → Type (ℓ ⊔ κ) where
  none : Pairwise R []
  also : {x : A} {xs : List A} → All (R x) xs → Pairwise R xs → Pairwise R (x ∷ xs)

module _ {ℓ κ} {A : Type ℓ} {R : A → A → Type κ} where
  pub Pairwise-snoc :
      (xs : List A) (y : A) → Pairwise R xs → All (λ x. R x y) xs → Pairwise R (xs ++ y ∷ [])
  Pairwise-snoc [] y h k = Pairwise.also All.none Pairwise.none
  Pairwise-snoc (x ∷ xs) y (Pairwise.also h t) k =
      Pairwise.also (All-snoc xs y h (All-head k)) (Pairwise-snoc xs y t (All-tail k))

  pub Pairwise-filter : (p : A → Bool) (xs : List A) → Pairwise R xs → Pairwise R (filter p xs)
  Pairwise-filter p [] h = Pairwise.none
  Pairwise-filter p (x ∷ xs) (Pairwise.also h t) = elim (Bool-cases (p x)) [
    | inl e ↦ rw e (Pairwise.also (All-filter p xs h) (Pairwise-filter p xs t))
    | inr e ↦ rw e (Pairwise-filter p xs t)
  ]

module _ {ℓ κ μ} {A : Type ℓ} {P : A → Type κ} {Q : A → Type μ} where
  -- An update in place, each row changed or not.
  pub All-changed :
      (p : A → Bool) (f : A → A) (xs : List A)
      → ((x : A) → P x → Q (changed p f x))
      → All P xs
      → All Q (update p f xs)
  All-changed p f [] k h = All.none
  All-changed p f (x ∷ xs) k h = All.also (k x (All-head h)) (All-changed p f xs k (All-tail h))

module _ {ℓ κ μ} {A : Type ℓ} {R : A → A → Type κ} {P : A → Type μ} where
  -- An update that keeps what holds of two rows, where each row has `P`.
  pub Pairwise-update :
      (p : A → Bool) (f : A → A) (xs : List A)
      → ((x y : A) → P x → P y → R x y → R (changed p f x) (changed p f y))
      → All P xs
      → Pairwise R xs
      → Pairwise R (update p f xs)
  Pairwise-update p f [] k h r = Pairwise.none
  Pairwise-update p f (x ∷ xs) k h (Pairwise.also r t) =
      Pairwise.also
        (All-changed p f xs (λ y c. k x y (All-head h) c.1 c.0) (All-pair xs r (All-tail h)))
        (Pairwise-update p f xs k (All-tail h) t)

module _ {ℓ} {A : Type ℓ} where
  pub All-of_find_none :
      (p : A → Bool) (xs : List A) → find p xs ≡ Option.none → All (λ x. p x ≡ false) xs
  All-of_find_none p [] e = All.none
  All-of_find_none p (x ∷ xs) e = elim (Bool-cases (p x)) [
    | inl t ↦ absurd (ground (arith, t))
    | inr t ↦ All.also t (All-of_find_none p xs (ground (arith, t)))
  ]

  pub All-of_any-false : (p : A → Bool) (xs : List A) → any p xs ≡ false → All (λ x. p x ≡ false) xs
  All-of_any-false p [] e = All.none
  All-of_any-false p (x ∷ xs) e = elim (Bool-cases (p x)) [
    | inl t ↦ absurd (ground (arith, t))
    | inr t ↦ All.also t (All-of_any-false p xs (ground (arith, t)))
  ]
