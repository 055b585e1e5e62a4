-- ===== src/Command/Nets/Order.antt =====
-- `CompareNetNames` against the order of names that it stands for.
use mathlib.Core.Path.{subst}
use quick_logger.Prelude.{
  ℕ, ◌==◌, ==_iff, ◌≡◌, ◌⊎◌, ◌<◌, refl, sym, inl, inr, true, false, [], ◌∷◌, Bool-cases, Bytes,
  equal, equal_iff, arith, ◌∙◌, ltb, ltb→lt,
}
use quick_logger.Access.{Net}
use quick_logger.Text.{to_upper_ascii}
use quick_logger.Command.Nets.{text_lt, compare_net_names}

-- The order of a dictionary, over bytes.
pub data Precedes : Bytes → Bytes → Type 0 where
  shorter : {d : ℕ} {b : Bytes} → Precedes [] (d ∷ b)
  smaller : {c d : ℕ} {a b : Bytes} → c < d → Precedes (c ∷ a) (d ∷ b)
  same : {c : ℕ} {a b : Bytes} → Precedes a b → Precedes (c ∷ a) (c ∷ b)

abbrev pub IsUpTo : Bytes → Bytes → Type 0
IsUpTo a b = Precedes a b ⊎ (a ≡ b)

-- In the order of their names in capital letters, and of the names themselves where these agree.
abbrev pub InOrder : Net → Net → Type 0
InOrder l m =
    Precedes (to_upper_ascii l.name) (to_upper_ascii m.name)
    ⊎ ((to_upper_ascii l.name ≡ to_upper_ascii m.name) × IsUpTo l.name m.name)

text_lt-Precedes : (a b : Bytes) → text_lt a b ≡ true → Precedes a b
unfolding text_lt
text_lt-Precedes a [] h = cc
text_lt-Precedes [] (d ∷ b) h = shorter
text_lt-Precedes (c ∷ a) (d ∷ b) h = elim (Bool-cases (ltb c d)) [
  | inl less ↦ smaller (ltb→lt c d less)
  | inr not_less ↦ elim (Bool-cases (c == d)) [
    | inl e ↦
        subst (λ x. Precedes (c ∷ a) (x ∷ b)) ((==_iff c d).0 e)
          (same (text_lt-Precedes a b (rw (not_less, e) at h)))
    | inr e ↦ ground arith
  ]
]

-- Neither comes before the other: they are the same.
text_lt_neither : (a b : Bytes) → text_lt a b ≡ false → text_lt b a ≡ false → a ≡ b
unfolding text_lt
text_lt_neither [] [] h k = refl
text_lt_neither [] (d ∷ b) h k = cc
text_lt_neither (c ∷ a) [] h k = cc
text_lt_neither (c ∷ a) (d ∷ b) h k = ground (arith, text_lt_neither a b)

text_lt-IsUpTo : (a b : Bytes) → text_lt b a ≡ false → IsUpTo a b
text_lt-IsUpTo a b h = elim (Bool-cases (text_lt a b)) [
  | inl less ↦ inl (text_lt-Precedes a b less)
  | inr neither ↦ inr (text_lt_neither a b neither h)
]

Precedes-trans : {a b c : Bytes} → Precedes a b → Precedes b c → Precedes a c
Precedes-trans shorter (smaller m) = shorter
Precedes-trans shorter (same k) = shorter
Precedes-trans (smaller m) (smaller n) = smaller (omega arith)
Precedes-trans (smaller m) (same k) = smaller m
Precedes-trans (same h) (smaller n) = smaller n
Precedes-trans (same h) (same k) = same (Precedes-trans h k)

module _ {a b c : Bytes} where
  Precedes-IsUpTo : Precedes a b → IsUpTo b c → Precedes a c
  Precedes-IsUpTo h (inl k) = Precedes-trans h k
  Precedes-IsUpTo h (inr e) = subst (Precedes a) e h

  IsUpTo-Precedes : (a ≡ b) → Precedes b c → Precedes a c
  IsUpTo-Precedes e k = subst (λ x. Precedes x c) (sym e) k

  IsUpTo-trans : IsUpTo a b → IsUpTo b c → IsUpTo a c
  IsUpTo-trans (inl h) k = inl (Precedes-IsUpTo h k)
  IsUpTo-trans (inr e) (inl k) = inl (IsUpTo-Precedes e k)
  IsUpTo-trans (inr e) (inr f) = inr (e ∙ f)

pub InOrder-trans : (l m n : Net) → InOrder l m → InOrder m n → InOrder l n
InOrder-trans l m n (inl h) (inl k) = inl (Precedes-trans h k)
InOrder-trans l m n (inl h) (inr (e, k)) = inl (Precedes-IsUpTo h (inr e))
InOrder-trans l m n (inr (e, h)) (inl k) = inl (IsUpTo-Precedes e k)
InOrder-trans l m n (inr (e, h)) (inr (f, k)) = inr (e ∙ f, IsUpTo-trans h k)

pub compare_net_names-InOrder : (l m : Net) → compare_net_names l m ≡ true → InOrder l m
unfolding compare_net_names
compare_net_names-InOrder l m h =
    elim (Bool-cases (equal (to_upper_ascii l.name) (to_upper_ascii m.name))) [
      | inl e ↦ inr ((equal_iff _ _).0 e, inl (text_lt-Precedes _ _ (rw e at h)))
      | inr e ↦ inl (text_lt-Precedes _ _ (rw e at h))
    ]

pub compare_net_names-InOrder_of_false : (l m : Net) → compare_net_names m l ≡ false → InOrder l m
unfolding compare_net_names
compare_net_names-InOrder_of_false l m h =
    elim (Bool-cases (equal (to_upper_ascii m.name) (to_upper_ascii l.name))) [
      | inl e ↦ inr (sym ((equal_iff _ _).0 e), text_lt-IsUpTo _ _ (rw e at h))
      | inr e ↦ elim (text_lt-IsUpTo _ _ (rw e at h)) [
        | inl less ↦ inl less
        | inr same_name ↦ ground (arith, equal_iff (to_upper_ascii m.name) (to_upper_ascii l.name))
      ]
    ]
