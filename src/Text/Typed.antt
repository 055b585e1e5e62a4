-- ===== src/Text/Typed.antt =====
-- src/text_utils.cpp: callsigns as they are typed, with and without the wildcard `?`.
use quick_logger.Prelude.{
  ℕ, ◌≡◌, refl, ap, inl, inr, Bool, true, false, ◌&&◌, ◌||◌, [], ◌∷◌, ◌++◌, arith, ◌==◌,
  if◌then◌else◌, Bool-cases, Bytes, codes, is_digit, is_upper, is_alnum, to_upper, length, leb, ltb,
}

-- The byte's part of the result, as the two loops append it.
unfoldable pub normal_byte : ℕ → Bytes
normal_byte c =
    if is_alnum c && ltb c 0x80 then to_upper c ∷ [] else if c == b'/' then c ∷ [] else []

unfoldable pub normalize_callsign : Bytes → Bytes
normalize_callsign [] = []
normalize_callsign (c ∷ cs) = normal_byte c ++ normalize_callsign cs

unfoldable pub normalize_typed_callsign : Bytes → Bytes
normalize_typed_callsign [] = []
normalize_typed_callsign (c ∷ cs) =
    (if c == b'?' then c ∷ [] else normalize_callsign (c ∷ [])) ++ normalize_typed_callsign cs

unfoldable pub is_wildcard_callsign : Bytes → Bool
is_wildcard_callsign [] = false
is_wildcard_callsign (c ∷ cs) = c == b'?' || is_wildcard_callsign cs

unfoldable pub wildcard_has_enough : Bytes → Bool
wildcard_has_enough typed = is_wildcard_callsign typed && leb 2 (length (normalize_callsign typed))

-- Each byte with a `%` behind it.
unfoldable pub percents : Bytes → Bytes
percents [] = []
percents (c ∷ cs) = c ∷ b'%' ∷ percents cs

unfoldable pub wildcard_like_pattern : Bytes → Bool → Bytes
wildcard_like_pattern typed anchored =
    (if anchored then [] else codes "%") ++ percents (normalize_callsign typed)

-- A byte of a normalized callsign.
abbrev pub is_callsign_byte : ℕ → Bool
is_callsign_byte c = is_upper c || is_digit c || c == b'/'

data ByteCase (c : ℕ) : Type 0 where
  kept : normal_byte c ≡ to_upper c ∷ [] → is_callsign_byte (to_upper c) ≡ true → ByteCase c
  dropped : normal_byte c ≡ [] → ByteCase c

byte_case : (c : ℕ) → ByteCase c
byte_case c = elim (Bool-cases (is_alnum c && ltb c 0x80)) [
  | inl alnum ↦ kept (unfold normal_byte in rw alnum) (unfold to_upper in ground arith)
  | inr other ↦ elim (Bool-cases (c == b'/')) [
    | inl slash ↦
        kept (unfold normal_byte to_upper in ground arith) (unfold to_upper in ground arith)
    | inr neither ↦ dropped (unfold normal_byte in rw (other, neither))
  ]
]

normal_byte-callsign : (c : ℕ) → is_callsign_byte c ≡ true → normal_byte c ≡ c ∷ []
unfolding normal_byte to_upper
normal_byte-callsign c h = ground arith

callsign_byte-no_wildcard : (c : ℕ) → is_callsign_byte c ≡ true → (c == b'?') ≡ false
callsign_byte-no_wildcard c h = ground arith

wildcard-dropped : (c : ℕ) → (c == b'?') ≡ true → normal_byte c ≡ []
unfolding normal_byte
wildcard-dropped c h = ground arith

-- Normalizing a typed call sign that may hold wildcards changes neither its normalized letters nor
-- whether it has a wildcard, and normalizing it again changes nothing.
pub normalize_typed_callsign-wildcard :
    (typed : Bytes)
    → (normalize_callsign (normalize_typed_callsign typed) ≡ normalize_callsign typed)
      × (is_wildcard_callsign (normalize_typed_callsign typed) ≡ is_wildcard_callsign typed)
      × (normalize_typed_callsign (normalize_typed_callsign typed) ≡ normalize_typed_callsign typed)
unfolding normalize_callsign normalize_typed_callsign is_wildcard_callsign
normalize_typed_callsign-wildcard [] = (refl, refl, refl)
normalize_typed_callsign-wildcard (c ∷ cs) =
    let rest = normalize_typed_callsign-wildcard cs in
    elim (Bool-cases (c == b'?')) [
      | inl wild ↦ rw (wild, wildcard-dropped c wild, wild) (rest.0, refl, ap (λ t. c ∷ t) rest.2)
      | inr other ↦ elim (byte_case c) [
        | kept e good ↦
            let plain = callsign_byte-no_wildcard (to_upper c) good in
            rw (other, e, plain, normal_byte-callsign (to_upper c) good)
              (ap (λ t. to_upper c ∷ t) rest.0, rest.1, ap (λ t. to_upper c ∷ t) rest.2)
        | dropped e ↦ rw (other, e) rest
      ]
    ]
