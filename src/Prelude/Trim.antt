-- ===== src/Prelude/Trim.antt =====
-- Facts on texts trimmed at both ends.
use Prim.Native.Nat.{ℕ}
use mathlib.Core.Path.{◌≡◌, refl, ◌∙◌}
use mathlib.Core.Logic.{inl, inr}
use mathlib.Core.Bool.{Bool, false}
use mathlib.Core.List.{[], ◌∷◌}
use quick_logger.Prelude.Tests.{if◌then◌else◌, Bool-cases}
use quick_logger.Prelude.Lists.{All}
use quick_logger.Prelude.Ascii.{Bytes, trim_front, trim_back}

-- Blank, or begun by a byte outside the class.
abbrev pub Starts : (ℕ → Bool) → Bytes → Type 0
Starts p [] = Unit
Starts p (c ∷ cs) = p c ≡ false

-- The end of a text: it is not begun by a run of the class that reaches its end.
abbrev pub put_front : (ℕ → Bool) → ℕ → Bytes → Bytes
put_front p c [] = if p c then [] else c ∷ []
put_front p c (d ∷ ds) = c ∷ d ∷ ds

module _ (p : ℕ → Bool) where
  trim_back-cons : (c : ℕ) (cs : Bytes) → trim_back p (c ∷ cs) ≡ put_front p c (trim_back p cs)
  unfolding trim_back
  trim_back-cons c cs = step (trim_back p cs)
    where
      step :
          (ds : Bytes)
          → elim ds [ [] ↦ (if p c then [] else c ∷ []) | ◌∷◌ d es ↦ c ∷ d ∷ es ] ≡ put_front p c ds
      step [] = refl
      step (d ∷ ds) = refl

  pub trim_front-Starts : (cs : Bytes) → Starts p (trim_front p cs)
  unfolding trim_front
  trim_front-Starts [] = tt
  trim_front-Starts (c ∷ cs) = elim (Bool-cases (p c)) [
    | inl out ↦ rw out (trim_front-Starts cs)
    | inr stay ↦ rw stay stay
  ]

  pub trim_front_id : (cs : Bytes) → Starts p cs → trim_front p cs ≡ cs
  unfolding trim_front
  trim_front_id [] h = refl
  trim_front_id (c ∷ cs) h = rw h

  put_front-Starts : (c : ℕ) (ds : Bytes) → p c ≡ false → Starts p (put_front p c ds)
  put_front-Starts c [] h = rw h h
  put_front-Starts c (d ∷ ds) h = h

  pub trim_back-Starts : (cs : Bytes) → Starts p cs → Starts p (trim_back p cs)
  trim_back-Starts [] h = unfold trim_back in tt
  trim_back-Starts (c ∷ cs) h = rw (trim_back-cons c cs) (put_front-Starts c (trim_back p cs) h)

  put_front-trim_back :
      (c : ℕ) (ds : Bytes) → trim_back p ds ≡ ds → trim_back p (put_front p c ds) ≡ put_front p c ds
  put_front-trim_back c [] h = elim (Bool-cases (p c)) [
    | inl out ↦ rw out (unfold trim_back in refl)
    | inr stay ↦ rw stay (unfold trim_back in rw stay)
  ]
  put_front-trim_back c (d ∷ ds) h = trim_back-cons c (d ∷ ds) ∙ rw h

  pub trim_back_idem : (cs : Bytes) → trim_back p (trim_back p cs) ≡ trim_back p cs
  trim_back_idem [] = unfold trim_back in refl
  trim_back_idem (c ∷ cs) =
      rw (trim_back-cons c cs) (put_front-trim_back c (trim_back p cs) (trim_back_idem cs))

  pub trim_front-All : (P : ℕ → Type 0) (cs : Bytes) → All P cs → All P (trim_front p cs)
  unfolding trim_front
  trim_front-All P [] h = tt
  trim_front-All P (c ∷ cs) h = elim (Bool-cases (p c)) [
    | inl out ↦ rw out (trim_front-All P cs h.1)
    | inr stay ↦ rw stay h
  ]

  put_front-All : (P : ℕ → Type 0) (c : ℕ) (ds : Bytes) → P c → All P ds → All P (put_front p c ds)
  put_front-All P c [] h hs = elim (Bool-cases (p c)) [
    | inl out ↦ rw out tt
    | inr stay ↦ rw stay (h, tt)
  ]
  put_front-All P c (d ∷ ds) h hs = (h, hs)

  pub trim_back-All : (P : ℕ → Type 0) (cs : Bytes) → All P cs → All P (trim_back p cs)
  trim_back-All P [] h = unfold trim_back in tt
  trim_back-All P (c ∷ cs) h =
      rw (trim_back-cons c cs) (put_front-All P c (trim_back p cs) h.0 (trim_back-All P cs h.1))

  -- Nothing to trim.
  pub trim_front_none : (cs : Bytes) → All (λ c. p c ≡ false) cs → trim_front p cs ≡ cs
  trim_front_none [] h = unfold trim_front in refl
  trim_front_none (c ∷ cs) h = trim_front_id (c ∷ cs) h.0

  put_front_stay : (c : ℕ) (ds : Bytes) → p c ≡ false → put_front p c ds ≡ c ∷ ds
  put_front_stay c [] h = rw h
  put_front_stay c (d ∷ ds) h = refl

  pub trim_back_none : (cs : Bytes) → All (λ c. p c ≡ false) cs → trim_back p cs ≡ cs
  trim_back_none [] h = unfold trim_back in refl
  trim_back_none (c ∷ cs) h =
      trim_back-cons c cs ∙ rw (trim_back_none cs h.1) (put_front_stay c cs h.0)
