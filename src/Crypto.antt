-- ===== src/Crypto.antt =====
-- im_server/src/crypto/AppCrypto.cpp. What OpenSSL computes is a parameter; the checks of sizes, the
-- refusal of a zero secret and the HKDF loop are the source's.
pub mod Hkdf
use improject.Base.{
  ◌≡◌, replicate, ℕ, zero, suc, ◌+◌, ◌-◌, ◌*◌, ◌%◌, List, [], ◌∷◌, ◌++◌, Bool, true, false, not,
  ◌&&◌, ◌||◌, Option, none, some, Bytes, ◌==◌, ltb, leb, min, if◌then◌else◌, length, take, bytes_eq,
  is_empty, all_of,
}

pub record AesGcmResult : Type 0 where
  pub ciphertext : Bytes
  pub tag : Bytes

-- The library's primitives; `none` is an error of the library.
pub record OpenSsl : Type 0 where
  pub hmac : Bytes → Bytes → Bytes
  pub digest : Bytes → Bytes
  pub derive : Bytes → Bytes → Option Bytes
  pub sign : Bytes → Bytes → Option Bytes
  pub seal : Bytes → Bytes → Bytes → Bytes → Option AesGcmResult
  pub unseal : Bytes → Bytes → Bytes → Bytes → Bytes → Option Bytes

-- What AES-GCM promises: an unsealed text is what was sealed, the tag has 16 bytes and the
-- ciphertext is as long as the text.
pub record Authentic (ssl : OpenSsl) : Type 0 where
  pub unseal-seal :
      (key nonce text aad : Bytes) (r : AesGcmResult)
      → ssl.seal key nonce text aad ≡ some r
      → (ssl.unseal key nonce r.ciphertext aad r.tag ≡ some text)
        × (length r.tag ≡ 16)
        × (length r.ciphertext ≡ length text)

-- A call that may throw: `none` is an exception. `guard` is requireSize.
abbrev guard : {A : Type 0} → Bool → Option A → Option A
guard b r = if b then r else none

module _ (ssl : OpenSsl) where
  unfoldable pub x25519_shared_secret : Bytes → Bytes → Option Bytes
  x25519_shared_secret private_key peer_public_key =
      guard (length private_key == 32 && length peer_public_key == 32)
        (elim (ssl.derive private_key peer_public_key) [
          | none ↦ none
          | some secret ↦ if all_of (λ b. b == 0) secret then none else some secret
        ])

  unfoldable pub ed25519_sign : Bytes → Bytes → Option Bytes
  ed25519_sign private_key message = guard (length private_key == 32) (ssl.sign private_key message)

  unfoldable pub aes256_gcm_encrypt : Bytes → Bytes → Bytes → Bytes → Option AesGcmResult
  aes256_gcm_encrypt key nonce plaintext aad =
      guard (length key == 32 && length nonce == 12) (ssl.seal key nonce plaintext aad)

  -- The result of a call that does not throw: nullopt where the tag does not fit.
  unfoldable pub aes256_gcm_decrypt : Bytes → Bytes → Bytes → Bytes → Bytes → Option (Option Bytes)
  aes256_gcm_decrypt key nonce ciphertext aad tag =
      guard (length key == 32 && length nonce == 12 && length tag == 16)
        (some (ssl.unseal key nonce ciphertext aad tag))

  -- The loop of hkdfSha256: the output from the block `counter` on, of which `needed` bytes are
  -- left to make.
  pub hkdf_blocks : ℕ → Bytes → Bytes → Bytes → ℕ → ℕ → Bytes
  hkdf_blocks zero prk info previous counter needed = []
  hkdf_blocks (suc fuel) prk info previous counter needed = elim (needed == 0) [
    | true ↦ []
    | false ↦
        let block = ssl.hmac prk (previous ++ (info ++ (counter % 256) ∷ [])) in
        let n = min (length block) needed in
        take n block ++ hkdf_blocks fuel prk info block (counter + 1) (needed - n)
  ]

  -- The fuel is the length asked for: a block that is not empty makes at least one byte.
  unfoldable pub hkdf_sha256 : Bytes → Bytes → Bytes → ℕ → Option Bytes
  unfolding hkdf_blocks
  hkdf_sha256 input_key_material salt info output_length =
      if ltb (255 * 32) output_length
      then none
      else some (
          hkdf_blocks output_length
            (ssl.hmac (if is_empty salt then replicate 32 0 else salt) input_key_material) info [] 1
            output_length)

-- Equal sizes and equal bytes.
unfoldable pub constant_time_equal : Bytes → Bytes → Bool
constant_time_equal left right =
    length left == length right && (is_empty left || bytes_eq left right)
