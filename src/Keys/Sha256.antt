-- ===== src/Keys/Sha256.antt =====
-- src/public_key.cpp, `Sha256`: words of 32 bits, sums cut back by `% 2 ^ 32`.
pub mod Size
use quick_logger.Prelude.{
  ℕ, zero, suc, ◌+◌, ◌-◌, ◌*◌, ◌/◌, ◌%◌, ◌^◌, List, [], ◌∷◌, ◌++◌, bit_and, bit_or, bit_xor, Bytes,
  get_or, length, drop,
}

abbrev pub word32 : ℕ → ℕ
word32 n = n % 2 ^ 32

-- `(value >> bits) | (value << (32 - bits))`.
unfoldable pub rotate_right : ℕ → ℕ → ℕ
rotate_right value bits = bit_or (value / 2 ^ bits) (word32 (value * 2 ^ (32 - bits)))

-- `~value`.
abbrev pub complement : ℕ → ℕ
complement value = 2 ^ 32 - 1 - value

unfoldable pub round_constants : List ℕ
round_constants =
    0x428A_2F98 ∷ 0x7137_4491 ∷ 0xB5C0_FBCF ∷ 0xE9B5_DBA5 ∷ 0x3956_C25B ∷ 0x59F1_11F1 ∷ 0x923F_82A4
    ∷ 0xAB1C_5ED5 ∷ 0xD807_AA98 ∷ 0x1283_5B01 ∷ 0x2431_85BE ∷ 0x550C_7DC3 ∷ 0x72BE_5D74
    ∷ 0x80DE_B1FE ∷ 0x9BDC_06A7 ∷ 0xC19B_F174 ∷ 0xE49B_69C1 ∷ 0xEFBE_4786 ∷ 0x0FC1_9DC6
    ∷ 0x240C_A1CC ∷ 0x2DE9_2C6F ∷ 0x4A74_84AA ∷ 0x5CB0_A9DC ∷ 0x76F9_88DA ∷ 0x983E_5152
    ∷ 0xA831_C66D ∷ 0xB003_27C8 ∷ 0xBF59_7FC7 ∷ 0xC6E0_0BF3 ∷ 0xD5A7_9147 ∷ 0x06CA_6351
    ∷ 0x1429_2967 ∷ 0x27B7_0A85 ∷ 0x2E1B_2138 ∷ 0x4D2C_6DFC ∷ 0x5338_0D13 ∷ 0x650A_7354
    ∷ 0x766A_0ABB ∷ 0x81C2_C92E ∷ 0x9272_2C85 ∷ 0xA2BF_E8A1 ∷ 0xA81A_664B ∷ 0xC24B_8B70
    ∷ 0xC76C_51A3 ∷ 0xD192_E819 ∷ 0xD699_0624 ∷ 0xF40E_3585 ∷ 0x106A_A070 ∷ 0x19A4_C116
    ∷ 0x1E37_6C08 ∷ 0x2748_774C ∷ 0x34B0_BCB5 ∷ 0x391C_0CB3 ∷ 0x4ED8_AA4A ∷ 0x5B9C_CA4F
    ∷ 0x682E_6FF3 ∷ 0x748F_82EE ∷ 0x78A5_636F ∷ 0x84C8_7814 ∷ 0x8CC7_0208 ∷ 0x90BE_FFFA
    ∷ 0xA450_6CEB ∷ 0xBEF9_A3F7 ∷ 0xC671_78F2 ∷ []

-- `while (message.size() % 64 != 56) message.push_back(0);` appends this many zeros.
unfoldable pub zeros : ℕ → Bytes
zeros zero = []
zeros (suc n) = 0 ∷ zeros n

abbrev pub zeros_needed : ℕ → ℕ
zeros_needed size = (64 + 56 - size % 64) % 64

-- `for (shift = 56; shift >= 0; shift -= 8)`.
abbrev pub big_endian64 : ℕ → Bytes
big_endian64 n =
    n / 2 ^ 56 % 256
    ∷ n / 2 ^ 48 % 256
    ∷ n / 2 ^ 40 % 256
    ∷ n / 2 ^ 32 % 256
    ∷ n / 2 ^ 24 % 256
    ∷ n / 2 ^ 16 % 256
    ∷ n / 2 ^ 8 % 256
    ∷ n % 256
    ∷ []

-- `message`, with the bit, the zeros and the length behind the bytes.
unfoldable pub padded_message : Bytes → Bytes
unfolding zeros
padded_message bytes =
    bytes
    ++ 0x80 ∷ (zeros (zeros_needed (length bytes + 1)) ++ big_endian64 (length bytes * 8 % 2 ^ 64))

-- The first sixteen of `words`.
unfoldable pub block_words : ℕ → Bytes → List ℕ
block_words zero bytes = []
block_words (suc n) (a ∷ b ∷ c ∷ d ∷ rest) =
    bit_or (bit_or (bit_or (a * 2 ^ 24) (b * 2 ^ 16)) (c * 2 ^ 8)) d ∷ block_words n rest
block_words (suc n) _ = []

-- `words[i]` from the words before it; `latest` holds them, `words[i - 1]` first.
unfoldable pub next_word : List ℕ → ℕ
unfolding rotate_right
next_word latest =
    let w15 = get_or latest 14 0 in
    let w2 = get_or latest 1 0 in
    let s0 = bit_xor (bit_xor (rotate_right w15 7) (rotate_right w15 18)) (w15 / 2 ^ 3) in
    let s1 = bit_xor (bit_xor (rotate_right w2 17) (rotate_right w2 19)) (w2 / 2 ^ 10) in
    word32 (get_or latest 15 0 + s0 + get_or latest 6 0 + s1)

unfoldable pub extend_words : ℕ → List ℕ → List ℕ
unfolding next_word
extend_words zero latest = latest
extend_words (suc n) latest = extend_words n (next_word latest ∷ latest)

unfoldable pub first_last : List ℕ → List ℕ → List ℕ
first_last done [] = done
first_last done (w ∷ ws) = first_last (w ∷ done) ws

-- `words`, in order.
unfoldable pub message_words : Bytes → List ℕ
unfolding first_last extend_words block_words
message_words block = first_last [] (extend_words 48 (first_last [] (block_words 16 block)))

-- The variables `a` to `h`, and `hash`.
pub record Hash : Type 0 where
  pub a : ℕ
  pub b : ℕ
  pub c : ℕ
  pub d : ℕ
  pub e : ℕ
  pub f : ℕ
  pub g : ℕ
  pub h : ℕ

unfoldable pub sha_round : Hash → ℕ → ℕ → Hash
unfolding rotate_right
sha_round s constant word =
    let s1 = bit_xor (bit_xor (rotate_right s.e 6) (rotate_right s.e 11)) (rotate_right s.e 25) in
    let choose = bit_xor (bit_and s.e s.f) (bit_and (complement s.e) s.g) in
    let temp1 = word32 (s.h + s1 + choose + constant + word) in
    let s0 = bit_xor (bit_xor (rotate_right s.a 2) (rotate_right s.a 13)) (rotate_right s.a 22) in
    let majority = bit_xor (bit_xor (bit_and s.a s.b) (bit_and s.a s.c)) (bit_and s.b s.c) in
    let temp2 = word32 (s0 + majority) in
    record {
      a = word32 (temp1 + temp2);
      b = s.a;
      c = s.b;
      d = s.c;
      e = word32 (s.d + temp1);
      f = s.e;
      g = s.f;
      h = s.g;
    }

unfoldable pub sha_rounds : Hash → List ℕ → List ℕ → Hash
unfolding sha_round
sha_rounds s (k ∷ ks) (w ∷ ws) = sha_rounds (sha_round s k w) ks ws
sha_rounds s _ _ = s

abbrev pub add_hash : Hash → Hash → Hash
add_hash x y = record {
  a = word32 (x.a + y.a);
  b = word32 (x.b + y.b);
  c = word32 (x.c + y.c);
  d = word32 (x.d + y.d);
  e = word32 (x.e + y.e);
  f = word32 (x.f + y.f);
  g = word32 (x.g + y.g);
  h = word32 (x.h + y.h);
}

-- The loop over blocks, on one round for each.
unfoldable pub sha_blocks : ℕ → Hash → Bytes → Hash
unfolding message_words sha_rounds round_constants
sha_blocks zero hash message = hash
sha_blocks (suc n) hash message =
    sha_blocks n (add_hash hash (sha_rounds hash round_constants (message_words message)))
      (drop 64 message)

abbrev pub first_hash : Hash
first_hash = record {
  a = 0x6A09_E667;
  b = 0xBB67_AE85;
  c = 0x3C6E_F372;
  d = 0xA54F_F53A;
  e = 0x510E_527F;
  f = 0x9B05_688C;
  g = 0x1F83_D9AB;
  h = 0x5BE0_CD19;
}

abbrev pub big_endian32 : ℕ → Bytes
big_endian32 word = word / 2 ^ 24 % 256 ∷ word / 2 ^ 16 % 256 ∷ word / 2 ^ 8 % 256 ∷ word % 256 ∷ []

unfoldable pub digest_of : Hash → Bytes
digest_of s =
    big_endian32 s.a
    ++ (big_endian32 s.b
        ++ (big_endian32 s.c
            ++ (big_endian32 s.d
                ++ (big_endian32 s.e
                    ++ (big_endian32 s.f ++ (big_endian32 s.g ++ big_endian32 s.h))))))

unfoldable pub sha256 : Bytes → Bytes
unfolding sha_blocks digest_of padded_message
sha256 bytes =
    let message = padded_message bytes in
    digest_of (sha_blocks (length message / 64) first_hash message)
