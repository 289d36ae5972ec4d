-- ===== src/Wire/Utf8.antt =====
-- About utf8Truncate of client_core/include/client_core/Protocol.h.
use improject.Base.{
  ℕ, zero, suc, ◌≤◌, ◌<◌, true, false, ◌≡◌, refl, ◌⊎◌, inl, Bytes, arith, length, take, get_elem?,
}
use improject.Wire.{is_continuation, boundary, utf8_truncate}

pub boundary-le : (s : Bytes) (n : ℕ) → boundary s n ≤ n
unfolding boundary
boundary-le s zero = omega arith
boundary-le s (suc n) = ground (arith, boundary-le s n)

-- The cut is at 0 or before a byte that starts a character.
boundary_starts :
    (s : Bytes) (n : ℕ)
    → (boundary s n ≡ 0) ⊎ (is_continuation (get_elem? s (boundary s n)) ≡ false)
unfolding boundary
boundary_starts s zero = inl refl
boundary_starts s (suc n) = ground (arith, boundary_starts s n)

boundary_last :
    (s : Bytes) (n k : ℕ) → boundary s n < k → k ≤ n → is_continuation (get_elem? s k) ≡ true
unfolding boundary
boundary_last s zero k low high = absurd (omega arith)
boundary_last s (suc n) k low high = ground (arith, boundary_last s n k)

-- Of a text that is longer than the limit, utf8Truncate keeps the first `n` bytes, where `n` is at
-- most the limit, and is 0 or the place of a byte that starts a character; any byte `k` behind it up
-- to the limit continues a character, so that no cut between characters keeps more.
pub utf8_truncate_lem :
    (s : Bytes) (max_bytes k : ℕ)
    → max_bytes < length s
    → (n : ℕ) × (utf8_truncate s max_bytes ≡ take n s)
      × (n ≤ max_bytes)
      × ((n ≡ 0) ⊎ (is_continuation (get_elem? s n) ≡ false))
      × ((k ≤ n) ⊎ (max_bytes < k) ⊎ (is_continuation (get_elem? s k) ≡ true))
unfolding utf8_truncate
utf8_truncate_lem s max_bytes k h = (
  boundary s max_bytes,
  ground arith,
  boundary-le s max_bytes,
  boundary_starts s max_bytes,
  ground (arith, boundary_last s max_bytes k),
)
