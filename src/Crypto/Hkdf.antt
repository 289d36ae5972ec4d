-- ===== src/Crypto/Hkdf.antt =====
-- About hkdfSha256 of AppCrypto.cpp.
use improject.Base.{
  ℕ, zero, suc, ◌+◌, ◌-◌, ◌*◌, ◌%◌, ◌≤◌, [], ◌∷◌, ◌++◌, min, ◌≡◌, some, Bytes, arith, length, take,
  length-append, length-take, is_empty, replicate, if◌then◌else◌,
}
use improject.Crypto.{OpenSsl, hkdf_blocks, hkdf_sha256}

module _ (ssl : OpenSsl) (block_size : (key text : Bytes) → length (ssl.hmac key text) ≡ 32) where
  length-hkdf_blocks :
      (fuel : ℕ) (prk info previous : Bytes) (counter needed : ℕ)
      → needed ≤ fuel
      → length (hkdf_blocks ssl fuel prk info previous counter needed) ≡ needed
  unfolding hkdf_blocks
  length-hkdf_blocks zero prk info previous counter needed h = omega arith
  length-hkdf_blocks (suc fuel) prk info previous counter needed h =
      let block = ssl.hmac prk (previous ++ (info ++ (counter % 256) ∷ [])) in
      let n = min (length block) needed in
      ground (
        arith,
        block_size prk (previous ++ (info ++ (counter % 256) ∷ [])),
        length-append (take n block)
            (hkdf_blocks ssl fuel prk info block (counter + 1) (needed - n)),
        length-take n block,
        length-hkdf_blocks fuel prk info block (counter + 1) (needed - n),
      )

  -- If each HMAC has 32 bytes, up to 255 blocks can be asked for, and come whole.
  pub length-hkdf_sha256 :
      (key_material salt info : Bytes) (output_length : ℕ)
      → output_length ≤ 255 * 32
      → (output : Bytes) × (hkdf_sha256 ssl key_material salt info output_length ≡ some output)
        × (length output ≡ output_length)
  unfolding hkdf_sha256
  length-hkdf_sha256 key_material salt info output_length h = (
    hkdf_blocks ssl output_length
        (ssl.hmac (if is_empty salt then replicate 32 0 else salt) key_material) info [] 1
        output_length,
    ground arith,
    length-hkdf_blocks output_length _ info [] 1 output_length (omega arith),
  )
