-- ===== src/Drafts.antt =====
-- internal/service/transaction/service.go: what a draft may hold.
pub mod Overflow
pub mod Edit
pub mod Versions
mod Examples
use expense.Base.{
  ℕ, ◌+◌, ◌-◌, ◌%◌, ◌^◌, Bool, ◌||◌, List, [], ◌∷◌, Text, codes, text_eq, ℤ, pos, negsuc, ◌+ℤ◌,
  ◌-ℤ◌, leb_ℤ, ltb_ℤ, ltb, length, any, if◌then◌else◌,
}
use expense.Store.World.{Result, ok, err, Error, too_many_items, item_invalid, invalid_amount}

pub record ItemInput : Type 0 where
  pub description : Text
  pub quantity : ℤ
  pub amount : ℤ

-- The value of an int64 after an operation: modulo 2 ^ 64, from -2 ^ 63 up.
abbrev pub wrap64 : ℤ → ℤ
wrap64 (pos n) =
    if ltb (n % 2 ^ 64) (2 ^ 63) then pos (n % 2 ^ 64) else negsuc (2 ^ 64 - 1 - n % 2 ^ 64)
wrap64 (negsuc n) =
    if ltb (n % 2 ^ 64) (2 ^ 63) then negsuc (n % 2 ^ 64) else pos (2 ^ 64 - 1 - n % 2 ^ 64)

abbrev pub max_items : ℕ
max_items = 200

abbrev pub max_int64 : ℤ
max_int64 = pos (2 ^ 63 - 1)

abbrev pub is_item_bad : ItemInput → Bool
is_item_bad i = text_eq i.description [] || leb_ℤ i.quantity (pos 0) || ltb_ℤ i.amount (pos 0)

-- The loop over the items, with `total` so far.
unfoldable pub validate_from : (total : ℤ) → List ItemInput → Result (Unit {0})
validate_from total [] = ok tt
validate_from total (i ∷ is) =
    let rest = validate_from (wrap64 (total +ℤ i.amount)) is in
    if is_item_bad i
    then err item_invalid
    else if ltb_ℤ (wrap64 (max_int64 -ℤ total)) i.amount
    then err invalid_amount
    else rest

unfoldable pub validate_items : List ItemInput → Result (Unit {0})
unfolding validate_from
validate_items items =
    let rest = validate_from (pos 0) items in
    if ltb max_items (length items) then err too_many_items else rest

abbrev pub categories : List Text
categories =
    codes "makan_minum"
    ∷ codes "transportasi"
    ∷ codes "material"
    ∷ codes "utilitas"
    ∷ codes "lainnya"
    ∷ []

-- IsValidCategory.
unfoldable pub is_valid_category : Text → Bool
is_valid_category c = any (λ known. text_eq known c) categories
