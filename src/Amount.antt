-- ===== src/Amount.antt =====
-- internal/service/approval/amount.go: an amount as display text.
pub mod Reading
use expense.Base.{
  ℕ, zero, suc, ◌+◌, ◌-◌, ◌/◌, ◌%◌, ◌^◌, Option, none, some, [], ◌∷◌, ◌++◌, Text, codes, text_eq, ℤ,
  pos, negsuc, ◌-ℤ◌, eq_ℤ, ltb_ℤ, ltb, length, take, drop, if◌then◌else◌,
}

-- The decimal digits of a number. A number below its own successor needs no more digits than that.
pub digits_on_fuel : ℕ → ℕ → Text
digits_on_fuel zero n = []
digits_on_fuel (suc f) n =
    let rest = digits_on_fuel f (n / 10) in
    if ltb n 10 then (b'0' + n) ∷ [] else rest ++ (b'0' + n % 10) ∷ []

unfoldable pub decimal : ℕ → Text
unfolding digits_on_fuel
decimal n = digits_on_fuel (suc n) n

-- `fmt.Sprintf("%d", n)` and `strconv.FormatInt(n, 10)`.
unfoldable pub format_int : ℤ → Text
unfolding decimal
format_int (pos n) = decimal n
format_int (negsuc n) = b'-' ∷ decimal (suc n)

abbrev pub int64_min : ℤ
int64_min = negsuc (2 ^ 63 - 1)

-- `-n` of an int64: the least one is its own negation.
abbrev pub neg64 : ℤ → ℤ
neg64 n = if eq_ℤ n int64_min then n else pos 0 -ℤ n

-- The loop `for i := pre; i < len(digits); i += 3`, over `digits[i:]`. `none` is the panic of a
-- slice out of range.
unfoldable pub write_groups : Text → Option Text
write_groups [] = some []
write_groups (a ∷ []) = none
write_groups (a ∷ b ∷ []) = none
write_groups (a ∷ b ∷ c ∷ []) = some (a ∷ b ∷ c ∷ [])
write_groups (a ∷ b ∷ c ∷ d ∷ rest) = elim (write_groups (d ∷ rest)) [
  | none ↦ none
  | some t ↦ some (a ∷ b ∷ c ∷ b'.' ∷ t)
]

-- The short group before the loop, with a dot where more follows.
abbrev pub first_group : ℕ → Text → Text
first_group pre digits =
    if ltb 0 pre then take pre digits ++ (if ltb pre (length digits) then b'.' ∷ [] else []) else []

-- `b` after the loop: the short first group, then the groups of three.
unfoldable pub group_text : Text → Option Text
unfolding write_groups
group_text digits =
    let pre = length digits % 3 in
    elim (write_groups (drop pre digits)) [
      | none ↦ none
      | some t ↦ some (first_group pre digits ++ t)
    ]

abbrev pub prefixed : Text → Option Text → Option Text
prefixed p none = none
prefixed p (some t) = some (p ++ t)

unfoldable pub group_digits : ℤ → Option Text
unfolding group_text format_int
group_digits n =
    let negative = ltb_ℤ n (pos 0) in
    let sign : Text = if negative then b'-' ∷ [] else [] in
    let n' = if negative then neg64 n else n in prefixed sign (group_text (format_int n'))

unfoldable pub format_amount : (amount : ℤ) (currency : Text) → Option Text
unfolding group_digits
format_amount amount currency =
    if text_eq currency (codes "IDR")
    then prefixed (codes "Rp") (group_digits amount)
    else if text_eq currency (codes "USD")
    then prefixed (codes "$") (group_digits amount)
    else some (currency ++ b' ' ∷ format_int amount)
