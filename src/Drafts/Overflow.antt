-- ===== src/Drafts/Overflow.antt =====
-- The check of the items keeps their sum within an int64.
use expense.Base.{
  ℕ, ◌+◌, ◌-◌, ◌^◌, ◌<◌, ◌≤◌, ◌≤ℤ◌, ◌<ℤ◌, ap, ◌∙◌, ◌≡◌, ◌↔◌, refl, inl, inr, arith, false, List, [],
  ◌∷◌, ℤ, pos, negsuc, ◌+ℤ◌, ◌-ℤ◌, ltb_ℤ, ltb, length, All, All-head, All-tail, Bool-cases, text_eq,
  pos_part,
}
use expense.Store.World.{ok}
use expense.Drafts.{
  ItemInput, wrap64, max_items, max_int64, is_item_bad, validate_from, validate_items,
}

-- The sum of the amounts, without a bound.
pub sum_of : List ItemInput → ℕ
sum_of [] = 0
sum_of (i ∷ is) = pos_part i.amount + sum_of is

-- An item with a description, a quantity above zero and an amount not below zero.
abbrev pub IsItemGood : ItemInput → Type 0
IsItemGood i = (text_eq i.description [] ≡ false) × (pos 0 <ℤ i.quantity) × (pos 0 ≤ℤ i.amount)

good_iff : (i : ItemInput) → (is_item_bad i ≡ false) ↔ IsItemGood i
good_iff i = (λ e. (ground arith, ground arith, ground arith), λ g. ground (arith, g))

wrap64_small : (n : ℕ) → n < 2 ^ 63 → wrap64 (pos n) ≡ pos n
wrap64_small n h = ground arith

room : (total : ℕ) → total < 2 ^ 63 → wrap64 (max_int64 -ℤ pos total) ≡ pos (2 ^ 63 - 1 - total)
room total h = ground arith

-- The next total of a good item that fits.
next_total :
    (total : ℕ) (amount : ℤ)
    → pos 0 ≤ℤ amount
    → total + pos_part amount < 2 ^ 63
    → wrap64 (pos total +ℤ amount) ≡ pos (total + pos_part amount)
next_total total (pos n) h k =
    let sum : pos total +ℤ pos n ≡ pos (total + n) = ground arith in
    ap wrap64 sum ∙ wrap64_small (total + n) k
next_total total (negsuc n) h k = absurd (omega arith)

fits :
    (total : ℕ) (amount : ℤ)
    → total < 2 ^ 63
    → pos 0 ≤ℤ amount
    → (ltb_ℤ (wrap64 (max_int64 -ℤ pos total)) amount ≡ false) ↔ (total + pos_part amount < 2 ^ 63)
fits total (pos n) h k = rw (room total h) (ground arith)
fits total (negsuc n) h k = absurd (omega arith)

validate_from_iff :
    (total : ℕ) (items : List ItemInput)
    → total < 2 ^ 63
    → (validate_from (pos total) items ≡ ok tt)
      ↔ (All IsItemGood items × (total + sum_of items < 2 ^ 63))
unfolding validate_from sum_of
validate_from_iff total [] h = (λ e. (All.none, omega arith), λ e. refl)
validate_from_iff total (i ∷ is) h = elim (Bool-cases (is_item_bad i)) [
  | inl e ↦ rw e (λ x. absurd (cc), λ g. absurd (ground (arith, (good_iff i).1 (All-head g.0))))
  | inr e ↦
      let positive : pos 0 ≤ℤ i.amount = ground arith in
      let fit = fits total i.amount h positive in
      elim (Bool-cases (ltb_ℤ (wrap64 (max_int64 -ℤ pos total)) i.amount)) [
        | inl f ↦ rw (e, f) (λ x. absurd (cc), λ g. absurd (ground (arith, fit, g.1)))
        | inr f ↦
            let k : total + pos_part i.amount < 2 ^ 63 = fit.0 f in
            let more = validate_from_iff (total + pos_part i.amount) is k in
            rw (e, f, next_total total i.amount positive k)
              (
                λ x. (All.also ((good_iff i).0 e) (more.0 x).0, omega (arith, (more.0 x).1)),
                λ g. more.1 (All-tail g.0, omega (arith, g.1)),
              )
      ]
]

-- The items are accepted exactly when there are at most 200, each has a description, a quantity
-- above zero and an amount not below zero, and the sum of the amounts, taken without wrap-around,
-- is an int64.
pub validate_items_iff :
    (items : List ItemInput)
    → (validate_items items ≡ ok tt)
      ↔ ((length items ≤ 200) × All IsItemGood items × (sum_of items < 2 ^ 63))
unfolding validate_items
validate_items_iff items =
    let all = validate_from_iff 0 items (omega arith) in
    elim (Bool-cases (ltb max_items (length items))) [
      | inl e ↦ rw e (λ x. absurd (cc), λ g. absurd (ground (arith, g.0)))
      | inr e ↦ rw e (
        λ x. (ground (arith, e), (all.0 x).0, omega (arith, (all.0 x).1)),
        λ g. all.1 (g.1, omega (arith, g.2)),
      )
    ]
