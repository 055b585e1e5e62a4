-- ===== src/Command/Nets/Found.antt =====
-- The nets that are found in a list.
use mathlib.Core.Path.{subst}
use quick_logger.Prelude.{
  ◌≡◌, ◌⊎◌, inl, inr, Bool, true, List, [], ◌∷◌, some, some_inj, All, refl, sym, Bool-cases, Bytes,
}
use quick_logger.Access.{Net}
use quick_logger.Text.NetName.{net_names_are_the_same}
use quick_logger.Command.Nets.{nets_where, find_named}

-- A net of a list.
abbrev pub Has : Net → List Net → Type 0
Has net [] = ⊥
Has net (other ∷ nets) = (other ≡ net) ⊎ Has net nets

pub nets_where-Has :
    (test : Net → Bool) (nets : List Net) (net : Net)
    → Has net (nets_where test nets)
    → Has net nets × (test net ≡ true)
unfolding nets_where
nets_where-Has test [] net h = elim h [ ]
nets_where-Has test (other ∷ nets) net h = elim (Bool-cases (test other)) [
  | inl hit ↦
      let here : (other ≡ net) ⊎ Has net (nets_where test nets) = rw hit at h in
      elim here [
        | inl e ↦ (inl e, subst (λ n. test n ≡ true) e hit)
        | inr there ↦ let rest = nets_where-Has test nets net there in (inr rest.0, rest.1)
      ]
  | inr miss ↦ let there = nets_where-Has test nets net (rw miss at h) in (inr there.0, there.1)
]

pub find_named-Has :
    (nets : List Net) (name : Bytes) (net : Net)
    → find_named nets name ≡ some net
    → Has net nets × (net_names_are_the_same net.name name ≡ true)
unfolding find_named
find_named-Has [] name net h = cc
find_named-Has (other ∷ nets) name net h =
    elim (Bool-cases (net_names_are_the_same other.name name)) [
      | inl hit ↦
          let e : other ≡ net = some_inj (rw hit at h) in
          (inl e, subst (λ n. net_names_are_the_same n.name name ≡ true) e hit)
      | inr miss ↦ let there = find_named-Has nets name net (rw miss at h) in (inr there.0, there.1)
    ]

pub Has-nets_where :
    (test : Net → Bool) (nets : List Net) (net : Net)
    → Has net nets
    → test net ≡ true
    → Has net (nets_where test nets)
unfolding nets_where
Has-nets_where test [] net h t = elim h [ ]
Has-nets_where test (other ∷ nets) net (inl e) t = rw (subst (λ n. test n ≡ true) (sym e) t) (inl e)
Has-nets_where test (other ∷ nets) net (inr there) t = elim (Bool-cases (test other)) [
  | inl hit ↦ rw hit (inr (Has-nets_where test nets net there t))
  | inr miss ↦ rw miss (Has-nets_where test nets net there t)
]

pub All-of_Has :
    (P : Net → Type 0) (nets : List Net) → ((net : Net) → Has net nets → P net) → All P nets
All-of_Has P [] h = tt
All-of_Has P (net ∷ nets) h = (h net (inl refl), All-of_Has P nets λ n m. h n (inr m))

pub All-Has : (P : Net → Type 0) (nets : List Net) (net : Net) → All P nets → Has net nets → P net
All-Has P [] net h m = elim m [ ]
All-Has P (other ∷ nets) net h (inl e) = subst P e h.0
All-Has P (other ∷ nets) net h (inr m) = All-Has P nets net h.1 m
