-- ===== src/Frequency/Offset/Accepted.antt =====
-- When `OffsetProblem` has nothing to say.
use mathlib.Core.Path.{subst}
use quick_logger.Prelude.{
  ℕ, ◌*◌, ◌<◌, ◌≡◌, ◌≢◌, ◌↔◌, ◌⊎◌, ◌∙◌, refl, sym, inl, inr, true, false, not, ◌&&◌, [], ◌∷◌, ◌++◌,
  Option, none, some, some_inj, arith, ◌==◌, ==_iff, Bool-cases, Option-cases, leb, Bytes,
}
use quick_logger.Frequency.{mhz, parse_mhz, is_amateur_frequency}
use quick_logger.Frequency.Offset.{
  too_large, listens_in_band, outside, listen_problem, size_problem, signed_problem, offset_problem,
}

-- A signed size above 0 and below 100 MHz that leads from an amateur frequency into a band.
pub record IsOffset (sign : ℕ) (digits frequency : Bytes) (hz : ℕ) : Type 0 where
  pub signed : (sign ≡ b'+') ⊎ (sign ≡ b'-')
  pub size : parse_mhz digits ≡ some hz
  pub positive : 0 < hz
  pub small : hz < 100 * mhz
  pub in_band :
      (frequency_hz : ℕ)
      → is_amateur_frequency frequency ≡ true
      → parse_mhz frequency ≡ some frequency_hz
      → listens_in_band sign frequency_hz hz ≡ true

append-ne-nil : (xs ys : Bytes) → ys ≢ [] → xs ++ ys ≢ []
append-ne-nil [] ys h e = h e
append-ne-nil (x ∷ xs) ys h e = cc

outside-ne-nil : (offset frequency : Bytes) → outside offset frequency ≢ []
unfolding outside
outside-ne-nil offset frequency = append-ne-nil frequency _ (λ e. cc)

too_large-ne-nil : (sign : ℕ) (digits : Bytes) (hz : ℕ) → too_large sign digits hz ≢ []
unfolding too_large
too_large-ne-nil sign digits hz = ground arith

listen_problem-blank :
    (sign : ℕ) (digits : Bytes) (hz : ℕ) (frequency : Bytes) (f : Option ℕ)
    → (listen_problem sign digits hz frequency f ≡ [])
      ↔ ((frequency_hz : ℕ) → f ≡ some frequency_hz → listens_in_band sign frequency_hz hz ≡ true)
unfolding listen_problem
listen_problem-blank sign digits hz frequency none = (λ e f p. cc, λ h. refl)
listen_problem-blank sign digits hz frequency (some f) =
    elim (Bool-cases (listens_in_band sign f hz)) [
      | inl good ↦
          (λ e g p. subst (λ x. listens_in_band sign x hz ≡ true) (some_inj p) good, λ h. rw good)
      | inr bad ↦ (
        λ e g p. absurd (outside-ne-nil (sign ∷ digits) frequency (rw bad at e)),
        λ h. absurd (ground (arith, h f refl)),
      )
    ]

size_problem-blank :
    (sign : ℕ) (digits : Bytes) (hz : ℕ) (frequency : Bytes)
    → (size_problem sign digits hz frequency ≡ []) ↔ (
        (0 < hz)
        × (hz < 100 * mhz)
        × ((frequency_hz : ℕ)
            → is_amateur_frequency frequency ≡ true
            → parse_mhz frequency ≡ some frequency_hz
            → listens_in_band sign frequency_hz hz ≡ true))
unfolding size_problem
size_problem-blank sign digits hz frequency = elim (Bool-cases (hz == 0)) [
  | inl z ↦ rw z (λ e. absurd cc, λ h. absurd (ground (arith, h.0)))
  | inr pos ↦ elim (Bool-cases (leb (100 * mhz) hz)) [
    | inl big ↦
        rw (pos, big)
          (λ e. absurd (too_large-ne-nil sign digits hz e), λ h. absurd (ground (arith, h.1)))
    | inr small ↦ elim (Bool-cases (is_amateur_frequency frequency)) [
      | inl amateur ↦
          rw (pos, small, amateur)
            (
              λ e. (
                ground arith,
                ground arith,
                λ f a p.
                    (listen_problem-blank sign digits hz frequency (parse_mhz frequency)).0 e f p,
              ),
              λ h.
                  (listen_problem-blank sign digits hz frequency (parse_mhz frequency)).1
                    (λ f p. h.2 f refl p),
            )
      | inr other ↦
          rw (pos, small, other) (λ e. (ground arith, ground arith, λ f a p. absurd cc), λ h. refl)
    ]
  ]
]

abbrev IsSigned : ℕ → Type 0
IsSigned sign = (sign ≡ b'+') ⊎ (sign ≡ b'-')

bool_clash : false ≡ true → ⊥
bool_clash e = cc

signed-not_neither : (sign : ℕ) → IsSigned sign → (not (sign == b'+') && not (sign == b'-')) ≡ false
signed-not_neither sign (inl e) = rw e
signed-not_neither sign (inr e) = rw e

not_neither-IsSigned :
    (sign : ℕ) → (not (sign == b'+') && not (sign == b'-')) ≡ false → IsSigned sign
not_neither-IsSigned sign h = elim (Bool-cases (sign == b'+')) [
  | inl plus ↦ inl ((==_iff sign b'+').0 plus)
  | inr other ↦ elim (Bool-cases (sign == b'-')) [
    | inl minus ↦ inr ((==_iff sign b'-').0 minus)
    | inr neither ↦ absurd (bool_clash (sym (rw (other, neither) at h)))
  ]
]

signed_problem-blank :
    (sign : ℕ) (digits : Bytes) (hz : ℕ) (frequency : Bytes)
    → (signed_problem sign digits (some hz) frequency ≡ [])
      ↔ (IsSigned sign × (size_problem sign digits hz frequency ≡ []))
unfolding signed_problem
signed_problem-blank sign digits hz frequency =
    elim (Bool-cases (not (sign == b'+') && not (sign == b'-'))) [
      | inl neither ↦
          rw neither
            (λ e. absurd cc, λ h. absurd (bool_clash (rw (signed-not_neither sign h.0) at neither)))
      | inr either ↦ rw either (λ e. (not_neither-IsSigned sign either, e), λ h. h.1)
    ]

-- OffsetProblem has nothing to say of an offset that is not blank exactly when it is a plus or
-- minus sign and a size in MHz that can be read, above 0 and below 100 MHz, which leads from the
-- frequency, if that is an amateur one, into an amateur band.
pub offset_problem-IsOffset :
    (sign : ℕ) (digits frequency : Bytes)
    → (offset_problem (sign ∷ digits) frequency ≡ [])
      ↔ ((hz : ℕ) × IsOffset sign digits frequency hz)
unfolding offset_problem
offset_problem-IsOffset sign digits frequency = elim (Option-cases (parse_mhz digits)) [
  | inl e ↦ rw e (λ h. absurd (unfold signed_problem in cc), λ h. absurd (no_size e h.1.size))
  | inr (hz, e) ↦ rw e (
    λ h.
        let sign_size = (signed_problem-blank sign digits hz frequency).0 h in
        let size_facts = (size_problem-blank sign digits hz frequency).0 sign_size.1 in
        (
          hz,
          record {
            signed = sign_size.0;
            size = e;
            positive = size_facts.0;
            small = size_facts.1;
            in_band = size_facts.2;
          },
        ),
    λ (x, offset).
        let same : x ≡ hz = some_inj (sym offset.size ∙ e) in
        (signed_problem-blank sign digits hz frequency).1 (
          offset.signed,
          (size_problem-blank sign digits hz frequency).1 (
            subst (λ y. 0 < y) same offset.positive,
            subst (λ y. y < 100 * mhz) same offset.small,
            λ f a p. subst (λ y. listens_in_band sign f y ≡ true) same (offset.in_band f a p),
          ),
        ),
  )
]
  where
    no_size : {hz : ℕ} → parse_mhz digits ≡ none → parse_mhz digits ≡ some hz → ⊥
    no_size e f = cc
