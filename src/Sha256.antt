-- ===== src/Sha256.antt =====
-- protocol/sha256.h: the SHA-256 that the client and the file server share. A word is a number below
-- 2 ^ 32.
pub mod Hex
use Prim.Native.Nat.{bit_and, bit_or, bit_xor}
use improject.Base.{
  ℕ, zero, suc, ◌+◌, ◌-◌, ◌*◌, ◌/◌, ◌%◌, ◌^◌, List, [], ◌∷◌, ◌++◌, Option, none, some, Bytes, ◌==◌,
  ltb, if◌then◌else◌, length, take, drop, replicate, get_elem?,
}

-- m_state
pub record State : Type 0 where
  pub a : ℕ
  pub b : ℕ
  pub c : ℕ
  pub d : ℕ
  pub e : ℕ
  pub f : ℕ
  pub g : ℕ
  pub h : ℕ

-- The bytes of m_data up to m_len, the bits behind them, and the state.
pub record Sha256 : Type 0 where
  pub data' : Bytes
  pub bit_len : ℕ
  pub state : State

-- reset
unfoldable pub reset : Sha256
reset = record {
  data' = [];
  bit_len = 0;
  state = record {
    a = 0x6a09e667;
    b = 0xbb67ae85;
    c = 0x3c6ef372;
    d = 0xa54ff53a;
    e = 0x510e527f;
    f = 0x9b05688c;
    g = 0x1f83d9ab;
    h = 0x5be0cd19;
  };
}

abbrev pub round_constants : List ℕ
round_constants =
    0x428a2f98 ∷ 0x71374491 ∷ 0xb5c0fbcf ∷ 0xe9b5dba5 ∷ 0x3956c25b ∷ 0x59f111f1 ∷ 0x923f82a4
    ∷ 0xab1c5ed5 ∷ 0xd807aa98 ∷ 0x12835b01 ∷ 0x243185be ∷ 0x550c7dc3 ∷ 0x72be5d74 ∷ 0x80deb1fe
    ∷ 0x9bdc06a7 ∷ 0xc19bf174 ∷ 0xe49b69c1 ∷ 0xefbe4786 ∷ 0x0fc19dc6 ∷ 0x240ca1cc ∷ 0x2de92c6f
    ∷ 0x4a7484aa ∷ 0x5cb0a9dc ∷ 0x76f988da ∷ 0x983e5152 ∷ 0xa831c66d ∷ 0xb00327c8 ∷ 0xbf597fc7
    ∷ 0xc6e00bf3 ∷ 0xd5a79147 ∷ 0x06ca6351 ∷ 0x14292967 ∷ 0x27b70a85 ∷ 0x2e1b2138 ∷ 0x4d2c6dfc
    ∷ 0x53380d13 ∷ 0x650a7354 ∷ 0x766a0abb ∷ 0x81c2c92e ∷ 0x92722c85 ∷ 0xa2bfe8a1 ∷ 0xa81a664b
    ∷ 0xc24b8b70 ∷ 0xc76c51a3 ∷ 0xd192e819 ∷ 0xd6990624 ∷ 0xf40e3585 ∷ 0x106aa070 ∷ 0x19a4c116
    ∷ 0x1e376c08 ∷ 0x2748774c ∷ 0x34b0bcb5 ∷ 0x391c0cb3 ∷ 0x4ed8aa4a ∷ 0x5b9cca4f ∷ 0x682e6ff3
    ∷ 0x748f82ee ∷ 0x78a5636f ∷ 0x84c87814 ∷ 0x8cc70208 ∷ 0x90befffa ∷ 0xa4506ceb ∷ 0xbef9a3f7
    ∷ 0xc67178f2 ∷ []

abbrev pub word : ℕ → ℕ
word n = n % 2 ^ 32

unfoldable pub rotr : ℕ → ℕ → ℕ
rotr x n = bit_or (x / 2 ^ n) (word (x * 2 ^ (32 - n)))

-- The big-endian words of the block.
unfoldable pub block_words : ℕ → Bytes → List ℕ
block_words (suc n) (a ∷ b ∷ c ∷ d ∷ rest) =
    (a * 2 ^ 24 + b * 2 ^ 16 + c * 2 ^ 8 + d) ∷ block_words n rest
block_words n bytes = []

-- w[i], where the words so far stand with the newest first: `back n` is w[i - n].
abbrev pub back : ℕ → List ℕ → ℕ
back n ws = elim (get_elem? ws (n - 1)) [ none ↦ 0 | some w ↦ w ]

unfoldable pub next_word : List ℕ → ℕ
unfolding rotr
next_word ws =
    let s0 = bit_xor (bit_xor (rotr (back 15 ws) 7) (rotr (back 15 ws) 18)) (back 15 ws / 2 ^ 3) in
    let s1 = bit_xor (bit_xor (rotr (back 2 ws) 17) (rotr (back 2 ws) 19)) (back 2 ws / 2 ^ 10) in
    word (back 16 ws + s0 + back 7 ws + s1)

-- The loop from 16 to 64, with the turns that are left.
unfoldable pub extend_words : ℕ → List ℕ → List ℕ
unfolding next_word
extend_words zero ws = ws
extend_words (suc n) ws = extend_words n (next_word ws ∷ ws)

-- One turn of the loop over the 64 rounds.
unfoldable pub round : ℕ → ℕ → State → State
unfolding rotr
round k w s =
    let big1 = bit_xor (bit_xor (rotr s.e 6) (rotr s.e 11)) (rotr s.e 25) in
    let ch = bit_xor (bit_and s.e s.f) (bit_and (2 ^ 32 - 1 - s.e) s.g) in
    let temp1 = word (s.h + big1 + ch + k + w) in
    let big0 = bit_xor (bit_xor (rotr s.a 2) (rotr s.a 13)) (rotr s.a 22) in
    let maj = bit_xor (bit_xor (bit_and s.a s.b) (bit_and s.a s.c)) (bit_and s.b s.c) in
    let temp2 = word (big0 + maj) in
    record {
      a = word (temp1 + temp2);
      b = s.a;
      c = s.b;
      d = s.c;
      e = word (s.d + temp1);
      f = s.e;
      g = s.f;
      h = s.g;
    }

unfoldable pub rounds : List ℕ → List ℕ → State → State
unfolding round
rounds (k ∷ ks) (w ∷ ws) s = rounds ks ws (round k w s)
rounds ks ws s = s

abbrev reversed : List ℕ → List ℕ → List ℕ
reversed [] done = done
reversed (w ∷ ws) done = reversed ws (w ∷ done)

-- transform, on the 64 bytes of m_data.
unfoldable pub transform : Bytes → State → State
unfolding block_words extend_words rounds
transform block s =
    let words = reversed (extend_words 48 (reversed (block_words 16 block) [])) [] in
    let t = rounds round_constants words s in
    record {
      a = word (s.a + t.a);
      b = word (s.b + t.b);
      c = word (s.c + t.c);
      d = word (s.d + t.d);
      e = word (s.e + t.e);
      f = word (s.f + t.f);
      g = word (s.g + t.g);
      h = word (s.h + t.h);
    }

-- One byte of update.
unfoldable pub add_byte : ℕ → Sha256 → Sha256
unfolding transform
add_byte x s =
    let block = s.data' ++ x ∷ [] in
    if length block == 64
    then record {
      data' = [];
      bit_len = (s.bit_len + 512) % 2 ^ 64;
      state = transform block s.state;
    }
    else record s { data' = block }

unfoldable pub update : Bytes → Sha256 → Sha256
unfolding add_byte
update [] s = s
update (x ∷ xs) s = update xs (add_byte x s)

-- The eight bytes of the length in bits, the highest first.
unfoldable pub length_bytes : ℕ → ℕ → Bytes
length_bytes zero bits = []
length_bytes (suc k) bits = bits / 2 ^ (8 * k) % 256 ∷ length_bytes k bits

abbrev pub word_bytes : ℕ → Bytes
word_bytes w = w / 2 ^ 24 % 256 ∷ w / 2 ^ 16 % 256 ∷ w / 2 ^ 8 % 256 ∷ w % 256 ∷ []

unfoldable pub state_bytes : State → Bytes
state_bytes s =
    word_bytes s.a
    ++ word_bytes s.b
    ++ word_bytes s.c
    ++ word_bytes s.d
    ++ word_bytes s.e
    ++ word_bytes s.f
    ++ word_bytes s.g
    ++ word_bytes s.h

-- final: the padding, in one more block or in two.
unfoldable pub final : Sha256 → Bytes
unfolding transform length_bytes state_bytes
final s =
    let bits = length_bytes 8 ((s.bit_len + length s.data' * 8) % 2 ^ 64) in
    let marked = s.data' ++ 128 ∷ [] in
    if ltb 56 (length marked)
    then state_bytes (
        transform (replicate 56 0 ++ bits)
          (transform (marked ++ replicate (64 - length marked) 0) s.state))
    else state_bytes (transform (marked ++ replicate (56 - length marked) 0 ++ bits) s.state)

-- "0123456789abcdef"[n]
unfoldable pub hex_digit : ℕ → ℕ
hex_digit n = if ltb n 10 then 48 + n else 87 + n

unfoldable pub hex : Bytes → Bytes
unfolding hex_digit
hex [] = []
hex (x ∷ xs) = hex_digit (x / 16 % 16) ∷ hex_digit (x % 16) ∷ hex xs

unfoldable pub digest : Bytes → Bytes
unfolding reset update final
digest input = final (update input reset)

unfoldable pub sha256_hex : Bytes → Bytes
unfolding digest hex
sha256_hex input = hex (digest input)
