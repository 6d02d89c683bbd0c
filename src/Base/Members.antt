-- ===== src/Base/Members.antt =====
-- Lemmas on the list functions that the statements are made of: what holds of every member, and
-- what a search finds, after an update in place or an insertion at the end.
use Prim.Native.Nat.{◌+◌}
use mathlib.Core.Path.{◌≡◌, refl}
use mathlib.Core.Logic.{inl, inr}
use mathlib.Core.Bool.{Bool, true, false, ◌&&◌, ◌||◌}
use mathlib.Core.Option.{Option, none, some}
use mathlib.Core.List.{List, [], ◌∷◌, ◌++◌}
use native.Mathlib.Omega.{arith}
use expense.Base.Tests.{if◌then◌else◌, Bool-cases}
use expense.Base.Lists.{All, filter, find, any, count, update, insert_by, sort_by}

module _ {ℓ κ} {A : Type ℓ} {P : A → Type κ} where
  pub All-head : {x : A} {xs : List A} → All P (x ∷ xs) → P x
  All-head (All.also h t) = h

  pub All-tail : {x : A} {xs : List A} → All P (x ∷ xs) → All P xs
  All-tail (All.also h t) = t

  pub All-every : (xs : List A) → ((x : A) → P x) → All P xs
  All-every [] f = All.none
  All-every (x ∷ xs) f = All.also (f x) (All-every xs f)

  pub All-snoc : (xs : List A) (y : A) → All P xs → P y → All P (xs ++ y ∷ [])
  All-snoc [] y h k = All.also k All.none
  All-snoc (x ∷ xs) y h k = All.also (All-head h) (All-snoc xs y (All-tail h) k)

  -- A row that a search finds has what every row has, and passes the test.
  pub All-find :
      (p : A → Bool) (xs : List A) {a : A} → All P xs → find p xs ≡ some a → P a × (p a ≡ true)
  All-find p [] h e = cc
  All-find p (x ∷ xs) {a} h e = elim (Bool-cases (p x)) [
    | inl t ↦ let same : x ≡ a = ground arith in rw (← same) (All-head h, t)
    | inr f ↦ All-find p xs (All-tail h) (rw f at e)
  ]

  pub All-of_insert_by :
      (before : A → A → Bool) (a : A) (xs : List A) → All P (insert_by before a xs) → P a × All P xs
  All-of_insert_by before a [] h = (All-head h, All.none)
  All-of_insert_by before a (x ∷ xs) h = elim (Bool-cases (before x a)) [
    | inl e ↦
        let h' : All P (x ∷ insert_by before a xs) = rw e at h in
        let k = All-of_insert_by before a xs (All-tail h') in (k.0, All.also (All-head h') k.1)
    | inr e ↦ let h' : All P (a ∷ x ∷ xs) = rw e at h in (All-head h', All-tail h')
  ]

  pub All-of_sort_by : (before : A → A → Bool) (xs : List A) → All P (sort_by before xs) → All P xs
  All-of_sort_by before [] h = All.none
  All-of_sort_by before (x ∷ xs) h =
      let k = All-of_insert_by before x (sort_by before xs) h in
      All.also k.0 (All-of_sort_by before xs k.1)

  pub All-insert_by :
      (before : A → A → Bool) (a : A) (xs : List A) → P a → All P xs → All P (insert_by before a xs)
  All-insert_by before a [] h k = All.also h All.none
  All-insert_by before a (x ∷ xs) h k = elim (Bool-cases (before x a)) [
    | inl e ↦ rw e (All.also (All-head k) (All-insert_by before a xs h (All-tail k)))
    | inr e ↦ rw e (All.also h k)
  ]

  pub All-sort_by : (before : A → A → Bool) (xs : List A) → All P xs → All P (sort_by before xs)
  All-sort_by before [] h = All.none
  All-sort_by before (x ∷ xs) h =
      All-insert_by before x (sort_by before xs) (All-head h) (All-sort_by before xs (All-tail h))

  pub All-filter : (p : A → Bool) (xs : List A) → All P xs → All P (filter p xs)
  All-filter p [] h = All.none
  All-filter p (x ∷ xs) h = elim (Bool-cases (p x)) [
    | inl e ↦ rw e (All.also (All-head h) (All-filter p xs (All-tail h)))
    | inr e ↦ rw e (All-filter p xs (All-tail h))
  ]

  pub All-of_filter :
      (p : A → Bool) (xs : List A) → All P (filter p xs) → All (λ x. p x ≡ true → P x) xs
  All-of_filter p [] h = All.none
  All-of_filter p (x ∷ xs) h = elim (Bool-cases (p x)) [
    | inl e ↦
        let h' : All P (x ∷ filter p xs) = rw e at h in
        All.also (λ _. All-head h') (All-of_filter p xs (All-tail h'))
    | inr e ↦ All.also (λ t. ground arith) (All-of_filter p xs (rw e at h))
  ]

module _ {ℓ κ μ} {A : Type ℓ} {P : A → Type κ} {Q : A → Type μ} where
  pub All-map : (xs : List A) → ((x : A) → P x → Q x) → All P xs → All Q xs
  All-map [] f h = All.none
  All-map (x ∷ xs) f h = All.also (f x (All-head h)) (All-map xs f (All-tail h))

  pub All-pair : (xs : List A) → All P xs → All Q xs → All (λ x. P x × Q x) xs
  All-pair [] h k = All.none
  All-pair (x ∷ xs) h k = All.also (All-head h, All-head k) (All-pair xs (All-tail h) (All-tail k))

  pub All-update :
      (p : A → Bool) (g : A → A) (xs : List A)
      → ((x : A) → p x ≡ true → P x → Q (g x))
      → ((x : A) → p x ≡ false → P x → Q x)
      → All P xs
      → All Q (update p g xs)
  All-update p g [] f k h = All.none
  All-update p g (x ∷ xs) f k h = elim (Bool-cases (p x)) [
    | inl e ↦ rw e (All.also (f x e (All-head h)) (All-update p g xs f k (All-tail h)))
    | inr e ↦ rw e (All.also (k x e (All-head h)) (All-update p g xs f k (All-tail h)))
  ]

module _ {ℓ} {A : Type ℓ} where
  pub find-append :
      (p : A → Bool) (xs ys : List A) (a : A) → find p xs ≡ some a → find p (xs ++ ys) ≡ some a
  find-append p [] ys a e = cc
  find-append p (x ∷ xs) ys a e = ground (arith, find-append p xs ys a)

  pub find-append_none :
      (p : A → Bool) (xs ys : List A) → find p xs ≡ none → find p (xs ++ ys) ≡ find p ys
  find-append_none p [] ys e = refl
  find-append_none p (x ∷ xs) ys e = ground (arith, find-append_none p xs ys)

  -- Nothing is found where every row fails the test.
  pub find-none : (p : A → Bool) (xs : List A) → All (λ x. p x ≡ false) xs → find p xs ≡ none
  find-none p [] h = refl
  find-none p (x ∷ xs) h = rw (All-head h) (find-none p xs (All-tail h))

  pub any-false : (p : A → Bool) (xs : List A) → All (λ x. p x ≡ false) xs → any p xs ≡ false
  any-false p [] h = refl
  any-false p (x ∷ xs) h = rw (All-head h) (any-false p xs (All-tail h))

  pub count-zero : (p : A → Bool) (xs : List A) → any p xs ≡ false → count p xs ≡ 0
  count-zero p [] h = refl
  count-zero p (x ∷ xs) h = ground (arith, count-zero p xs)

  pub any-append : (p : A → Bool) (xs ys : List A) → any p (xs ++ ys) ≡ (any p xs || any p ys)
  any-append p [] ys = refl
  any-append p (x ∷ xs) ys = ground (arith, any-append p xs ys)

  pub count-append : (p : A → Bool) (xs ys : List A) → count p (xs ++ ys) ≡ count p xs + count p ys
  count-append p [] ys = omega arith
  count-append p (x ∷ xs) ys = ground (arith, count-append p xs ys)

  pub any-find : (p : A → Bool) (xs : List A) (a : A) → find p xs ≡ some a → any p xs ≡ true
  any-find p [] a e = cc
  any-find p (x ∷ xs) a e = ground (arith, any-find p xs a)

  pub find-passes : (p : A → Bool) (xs : List A) (a : A) → find p xs ≡ some a → p a ≡ true
  find-passes p [] a e = cc
  find-passes p (x ∷ xs) a e = ground (arith, find-passes p xs a)

  -- Tests that agree on every row.
  pub any-congr : (p q : A → Bool) (xs : List A) → All (λ x. p x ≡ q x) xs → any p xs ≡ any q xs
  any-congr p q [] h = refl
  any-congr p q (x ∷ xs) h = ground (arith, All-head h, any-congr p q xs (All-tail h))

  abbrev pub changed : (A → Bool) → (A → A) → A → A
  changed p f x = if p x then f x else x

  abbrev map_some : (A → A) → Option A → Option A
  map_some f none = none
  map_some f (some x) = some (f x)

  -- A search by a test that the update leaves alone finds the changed row.
  pub find-update :
      (q p : A → Bool) (f : A → A) (xs : List A)
      → ((x : A) → q (f x) ≡ q x)
      → find q (update p f xs) ≡ map_some (changed p f) (find q xs)
  find-update q p f [] h = refl
  find-update q p f (x ∷ xs) h = ground (arith, h x, find-update q p f xs h)

  pub any-update :
      (q p : A → Bool) (f : A → A) (xs : List A)
      → ((x : A) → p x ≡ true → q (f x) ≡ q x)
      → any q (update p f xs) ≡ any q xs
  any-update q p f [] h = refl
  any-update q p f (x ∷ xs) h = ground (arith, h x, any-update q p f xs h)

  any-insert_by :
      (p : A → Bool) (before : A → A → Bool) (a : A) (xs : List A)
      → any p (insert_by before a xs) ≡ (p a || any p xs)
  any-insert_by p before a [] = refl
  any-insert_by p before a (x ∷ xs) = ground (arith, any-insert_by p before a xs)

  pub any-sort_by :
      (p : A → Bool) (before : A → A → Bool) (xs : List A) → any p (sort_by before xs) ≡ any p xs
  any-sort_by p before [] = refl
  any-sort_by p before (x ∷ xs) =
      ground (arith, any-insert_by p before x (sort_by before xs), any-sort_by p before xs)

  pub any-filter : (p q : A → Bool) (xs : List A) → any p (filter q xs) ≡ any (λ x. q x && p x) xs
  any-filter p q [] = refl
  any-filter p q (x ∷ xs) = ground (arith, any-filter p q xs)

  pub any_mono :
      (p q : A → Bool) (xs : List A)
      → ((x : A) → p x ≡ true → q x ≡ true)
      → any p xs ≡ true
      → any q xs ≡ true
  any_mono p q [] h e = cc
  any_mono p q (x ∷ xs) h e = ground (arith, h x, any_mono p q xs h)

  -- The row that a search finds passes a second test too.
  pub any-find_and :
      (p q : A → Bool) (xs : List A) (a : A)
      → find p xs ≡ some a
      → q a ≡ true
      → any (λ x. p x && q x) xs ≡ true
  any-find_and p q [] a e h = cc
  any-find_and p q (x ∷ xs) a e h = ground (arith, any-find_and p q xs a)

module _ {ℓ κ} {A : Type ℓ} {P : A → Type κ} where
  -- A row that passes a test can be taken from a list where one does.
  pub any-All :
      (p q : A → Bool) (xs : List A)
      → All P xs
      → ((x : A) → P x → p x ≡ true → q x ≡ true)
      → any p xs ≡ true
      → any q xs ≡ true
  any-All p q [] h k e = cc
  any-All p q (x ∷ xs) h k e = ground (arith, k x (All-head h), any-All p q xs (All-tail h) k)

  -- A row that the update hits passes the second test afterwards.
  pub any-update_hit :
      (q p : A → Bool) (f : A → A) (xs : List A)
      → All P xs
      → ((x : A) → P x → p x ≡ true → q (f x) ≡ true)
      → any p xs ≡ true
      → any q (update p f xs) ≡ true
  any-update_hit q p f [] h k e = cc
  any-update_hit q p f (x ∷ xs) h k e =
      ground (arith, k x (All-head h), any-update_hit q p f xs (All-tail h) k)
