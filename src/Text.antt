-- ===== src/Text.antt =====
-- What the source uses of std::string and of its conversions: std::to_string, std::stoi and its
-- kin, find, and prefixes.
use improject.Base.{
  ℕ, zero, suc, ℤ, pos, negsuc, ◌+◌, ◌-◌, ◌*◌, ◌/◌, ◌%◌, [], ◌∷◌, ◌++◌, Bool, true, false, ◌&&◌,
  ◌||◌, Option, none, some, Bytes, ◌==◌, ltb, leb, within, if◌then◌else◌,
}

abbrev pub is_digit : ℕ → Bool
is_digit c = within 48 57 c

-- The digits of a number below 10 ^ fuel.
unfoldable pub digits : ℕ → ℕ → Bytes
digits zero n = []
digits (suc fuel) n =
    let rest = digits fuel (n / 10) in
    if ltb n 10 then (48 + n) ∷ [] else rest ++ (48 + n % 10) ∷ []

-- std::to_string of a number that is not negative.
unfoldable pub decimal : ℕ → Bytes
unfolding digits
decimal n = digits (suc n) n

unfoldable pub to_string : ℤ → Bytes
unfolding decimal
to_string (pos n) = decimal n
to_string (negsuc n) = 45 ∷ decimal (suc n)

-- isspace
abbrev pub is_space : ℕ → Bool
is_space c = c == 32 || within 9 13 c

unfoldable pub skip_space : Bytes → Bytes
skip_space [] = []
skip_space (c ∷ cs) = let rest = skip_space cs in if is_space c then rest else c ∷ cs

-- The value of the leading digits, behind a number that was read.
unfoldable pub digits_value : ℕ → Bytes → ℕ
digits_value n [] = n
digits_value n (c ∷ cs) =
    let rest = digits_value (10 * n + (c - 48)) cs in if is_digit c then rest else n

unfoldable pub leading_number : Bytes → Option ℕ
unfolding digits_value
leading_number [] = none
leading_number (c ∷ cs) = if is_digit c then some (digits_value 0 (c ∷ cs)) else none

abbrev pub positive_within : ℕ → Option ℕ → Option ℤ
positive_within hi none = none
positive_within hi (some n) = if leb n hi then some (pos n) else none

abbrev pub negative_within : ℕ → Option ℕ → Option ℤ
negative_within hi none = none
negative_within hi (some zero) = some (pos 0)
negative_within hi (some (suc n)) = if leb n hi then some (negsuc n) else none

-- A sign, and the number behind it.
unfoldable pub signed_number : ℕ → Bytes → Option ℤ
unfolding leading_number
signed_number hi [] = none
signed_number hi (c ∷ cs) =
    if c == 45
    then negative_within hi (leading_number cs)
    else if c == 43
    then positive_within hi (leading_number cs)
    else positive_within hi (leading_number (c ∷ cs))

-- std::stoi, std::stol and std::stoll on a type whose largest value is `hi`: `none` is an exception.
unfoldable pub parse_int : ℕ → Bytes → Option ℤ
unfolding skip_space signed_number
parse_int hi text = signed_number hi (skip_space text)

-- text.rfind(prefix, 0) == 0
unfoldable pub starts_with : Bytes → Bytes → Bool
starts_with [] text = true
starts_with (p ∷ ps) [] = false
starts_with (p ∷ ps) (c ∷ cs) = p == c && starts_with ps cs

abbrev pub later : Option ℕ → Option ℕ
later none = none
later (some n) = some (suc n)

-- text.find(part)
unfoldable pub find_text : Bytes → Bytes → Option ℕ
unfolding starts_with
find_text part [] = if starts_with part [] then some 0 else none
find_text part (c ∷ cs) =
    let rest = find_text part cs in if starts_with part (c ∷ cs) then some 0 else later rest
