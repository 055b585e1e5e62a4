-- ===== src/Keys/Sha256/Size.antt =====
-- The sizes in `Sha256`: whole blocks, and a digest of 32 bytes.
use quick_logger.Prelude.{
  ℕ, zero, suc, ◌+◌, ◌*◌, ◌%◌, ◌^◌, ◌≤◌, ◌≡◌, refl, ◌∷◌, ◌++◌, arith, Bytes, length, length-append,
}
use quick_logger.Keys.Sha256.{zeros, zeros_needed, big_endian64, padded_message, digest_of, sha256}

length-zeros : (n : ℕ) → length (zeros n) ≡ n
unfolding zeros
length-zeros zero = refl
length-zeros (suc n) = omega (arith, length-zeros n)

-- The message that Sha256 hashes is made of whole blocks of 64 bytes and is from 9 to 72 bytes
-- longer than the bytes given, and the digest has 32 bytes.
pub padded_message_whole :
    (bytes : Bytes)
    → (length (padded_message bytes) % 64 ≡ 0)
      × (length bytes + 9 ≤ length (padded_message bytes))
      × (length (padded_message bytes) ≤ length bytes + 72)
      × (length (sha256 bytes) ≡ 32)
unfolding padded_message sha256 digest_of
padded_message_whole bytes = sizes (length bytes) (length (padded_message bytes)) total
  where
    total :
        length (padded_message bytes) ≡ length bytes + (1 + (zeros_needed (length bytes + 1) + 8))
    total = omega (
      arith,
      length-append bytes (
          0x80
          ∷ (zeros (zeros_needed (length bytes + 1)) ++ big_endian64 (length bytes * 8 % 2 ^ 64))),
      length-append (zeros (zeros_needed (length bytes + 1)))
          (big_endian64 (length bytes * 8 % 2 ^ 64)),
      length-zeros (zeros_needed (length bytes + 1)),
    )

    sizes :
        (n m : ℕ)
        → m ≡ n + (1 + (zeros_needed (n + 1) + 8))
        → (m % 64 ≡ 0) × (n + 9 ≤ m) × (m ≤ n + 72) × (length (sha256 bytes) ≡ 32)
    sizes n m e = (omega arith, omega arith, omega arith, refl)
