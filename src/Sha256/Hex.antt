-- ===== src/Sha256/Hex.antt =====
-- About the output of sha256.h, and about its input in pieces.
use improject.Base.{
  ℕ, ◌*◌, ◌/◌, ◌%◌, ◌<◌, [], ◌∷◌, ◌++◌, Bool, true, false, ◌||◌, Bytes, ◌≡◌, refl, ◌∙◌, ap, arith,
  within, if◌then◌else◌, length, all_of,
}
use improject.Sha256.{
  Sha256, State, reset, update, final, state_bytes, hex_digit, hex, digest, sha256_hex,
}

-- A character of a hash that is written out.
abbrev pub is_hex_digit : ℕ → Bool
is_hex_digit c = within 48 57 c || within 97 102 c

hex_digit_lem : (n : ℕ) → n < 16 → is_hex_digit (hex_digit n) ≡ true
unfolding hex_digit
hex_digit_lem n h = ground arith

pub all_of-hex : (xs : Bytes) → all_of is_hex_digit (hex xs) ≡ true
unfolding hex
all_of-hex [] = refl
all_of-hex (x ∷ xs) =
    ground (arith, hex_digit_lem (x / 16 % 16), hex_digit_lem (x % 16), all_of-hex xs)

length-hex : (xs : Bytes) → length (hex xs) ≡ 2 * length xs
unfolding hex
length-hex [] = refl
length-hex (x ∷ xs) = ground (arith, length-hex xs)

length-state_bytes : (s : State) → length (state_bytes s) ≡ 32
unfolding state_bytes
length-state_bytes s = refl

length-final : (s : Sha256) → length (final s) ≡ 32
unfolding final
length-final s = either _ _ _
  where
    either : (b : Bool) (x y : State) → length (if b then state_bytes x else state_bytes y) ≡ 32
    either true x y = length-state_bytes x
    either false x y = length-state_bytes y

pub length-sha256_hex : (input : Bytes) → length (sha256_hex input) ≡ 64
unfolding sha256_hex digest
length-sha256_hex input =
    length-hex (final (update input reset)) ∙ ap (λ n. 2 * n) (length-final (update input reset))

pub all_of-sha256_hex : (input : Bytes) → all_of is_hex_digit (sha256_hex input) ≡ true
unfolding sha256_hex
all_of-sha256_hex input = all_of-hex (digest input)

-- A text that comes in pieces.
pub update-append : (xs ys : Bytes) (s : Sha256) → update (xs ++ ys) s ≡ update ys (update xs s)
unfolding update
update-append [] ys s = refl
update-append (x ∷ xs) ys s = update-append xs ys _
