-- ===== src/Roles/Names.antt =====
-- A normalized name is a fixed point of the normalization.
use mathlib.Core.List.{reverse, reverse-cons, reverse-append, reverse-reverse}
use expense.Base.{
  ℕ, ◌≡◌, ◌∙◌, refl, ap, inl, inr, arith, false, [], ◌∷◌, ◌++◌, Text, Bool-cases, is_space,
  trim_left, trim_space, text_eq, length, ltb, ◌||◌,
}
use expense.Store.World.{ok}
use expense.Roles.{normalize_role_name}

-- A text is empty or starts with no space.
data IsTight : Text → Type 0 where
  empty : IsTight []
  starts : {c : ℕ} {cs : Text} → is_space c ≡ false → IsTight (c ∷ cs)

trim_left-IsTight : (s : Text) → IsTight (trim_left s)
unfolding trim_left
trim_left-IsTight [] = IsTight.empty
trim_left-IsTight (c ∷ cs) = elim (Bool-cases (is_space c)) [
  | inl e ↦ rw e (trim_left-IsTight cs)
  | inr e ↦ rw e (IsTight.starts e)
]

trim_left-tight : (s : Text) → IsTight s → trim_left s ≡ s
unfolding trim_left
trim_left-tight [] h = refl
trim_left-tight (c ∷ cs) (IsTight.starts e) = rw e refl

-- A text that ends with no space keeps its end.
trim_left-snoc :
    (s : Text) (c : ℕ) → is_space c ≡ false → trim_left (s ++ c ∷ []) ≡ trim_left s ++ c ∷ []
unfolding trim_left
trim_left-snoc [] c e = rw e refl
trim_left-snoc (x ∷ s) c e = elim (Bool-cases (is_space x)) [
  | inl f ↦ rw f (trim_left-snoc s c e)
  | inr f ↦ rw f refl
]

-- Cutting spaces off the end keeps the start.
trim_right-IsTight : (s : Text) → IsTight s → IsTight (reverse (trim_left (reverse s)))
unfolding trim_left
trim_right-IsTight [] h = IsTight.empty
trim_right-IsTight (c ∷ cs) (IsTight.starts e) =
    let shape : reverse (trim_left (reverse (c ∷ cs))) ≡ c ∷ reverse (trim_left (reverse cs)) =
      ap (λ t. reverse (trim_left t)) (reverse-cons c cs)
      ∙ ap reverse (trim_left-snoc (reverse cs) c e)
      ∙ reverse-append (trim_left (reverse cs)) (c ∷ []) in
    rw shape (IsTight.starts e)

trim_space-trim_space : (s : Text) → trim_space (trim_space s) ≡ trim_space s
unfolding trim_space
trim_space-trim_space s =
    let right = trim_left (reverse (trim_left s)) in
    let tight = trim_right-IsTight (trim_left s) (trim_left-IsTight s) in
    ap (λ t. reverse (trim_left (reverse t))) (trim_left-tight (reverse right) tight)
    ∙ ap (λ t. reverse (trim_left t)) (reverse-reverse right)
    ∙ ap reverse (trim_left-tight right (trim_left-IsTight (reverse (trim_left s))))

-- A name that the normalization gives is normalized: it has no space at its ends, is not empty,
-- has at most 100 characters, and the normalization gives it again.
pub normalize_role_name-idempotent :
    (name trimmed : Text)
    → normalize_role_name name ≡ ok trimmed
    → (trim_space trimmed ≡ trimmed)
      × (text_eq trimmed [] ≡ false)
      × (ltb 100 (length trimmed) ≡ false)
      × (normalize_role_name trimmed ≡ ok trimmed)
unfolding normalize_role_name
normalize_role_name-idempotent name trimmed h =
    let same = trim_space-trim_space name in
    elim (Bool-cases (text_eq (trim_space name) [] || ltb 100 (length (trim_space name)))) [
      | inl e ↦ absurd (ground (arith, e))
      | inr e ↦
          let is : trim_space name ≡ trimmed = ground (arith, e) in
          rw (← is) (same, ground (arith, e), ground (arith, e), rw (same, e) refl)
    ]
