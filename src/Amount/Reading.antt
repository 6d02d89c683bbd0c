-- ===== src/Amount/Reading.antt =====
-- The text of an amount against a reference that counts the digits that follow.
use expense.Base.{
  ℕ, suc, ◌%◌, ◌≡◌, ◌&&◌, false, not, text_eq, [], ◌∷◌, ◌++◌, Text, codes, ℤ, pos, negsuc, ltb,
  length, filter, ◌==◌, if◌then◌else◌,
}
use expense.Amount.{decimal, format_int}

abbrev pub without_dots : Text → Text
without_dots t = filter (λ c. not (c == b'.')) t

abbrev IsNoDot : ℕ → Type 0
IsNoDot c = (c == b'.') ≡ false

-- The reference: a dot follows each digit that three, six, nine … digits follow.
pub grouped : Text → Text
grouped [] = []
grouped (c ∷ t) =
    let rest = grouped t in
    c ∷ (if ltb 0 (length t) && length t % 3 == 0 then b'.' ∷ rest else rest)

-- The amount in the words of the reference.
abbrev pub signed : ℤ → Text
signed (pos n) = grouped (decimal n)
signed (negsuc n) = b'-' ∷ grouped (decimal (suc n))

abbrev pub display_of : (amount : ℤ) (currency : Text) → Text
display_of amount currency =
    if text_eq currency (codes "IDR")
    then codes "Rp" ++ signed amount
    else if text_eq currency (codes "USD")
    then codes "$" ++ signed amount
    else currency ++ b' ' ∷ format_int amount
