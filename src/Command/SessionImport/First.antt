-- ===== src/Command/SessionImport/First.antt =====
-- Which net a session is offered for: of those that look alike, the first by name.
use quick_logger.Prelude.{
  ℕ, ◌≡◌, ◌⊎◌, inl, inr, refl, true, false, List, [], ◌∷◌, Option, none, All, Bytes, codes,
  Bool-cases,
}
use quick_logger.Prelude.Sort.{insert_by, sort_by, sort_by-All, IsSorted, sort_by-IsSorted}
use quick_logger.Access.{Net, UserAccess}
use quick_logger.Command.Answer.{RemoteCommandResult}
use quick_logger.Command.Import.{is_recurring, is_offered, set_net, finish_answer, no_fields}
use quick_logger.Command.Nets.{nets_where, find_named, compare_net_names}
use quick_logger.Command.Nets.Found.{Has, nets_where-Has, Has-nets_where, All-of_Has, All-Has}
use quick_logger.Command.Nets.Order.{
  InOrder, InOrder-trans, compare_net_names-InOrder, compare_net_names-InOrder_of_false,
}
use quick_logger.Command.Parse.{RemoteCommand}
use quick_logger.Command.SessionImport.{
  offer, session_label, first_instance, import_unconfirmed, import_recurring, run_session_import,
}
use quick_logger.Command.Store.{Store, NetSlice}
use quick_logger.Command.Throwing.{Attempt, done}

insert_by-Has :
    (a : Net) (l : List Net) (x : Net) → (a ≡ x) ⊎ Has x l → Has x (insert_by compare_net_names a l)
unfolding insert_by
insert_by-Has a [] x h = h
insert_by-Has a (b ∷ l) x h = elim (Bool-cases (compare_net_names b a)) [
  | inl later ↦ rw later (elim h [
    | inl e ↦ inr (insert_by-Has a l x (inl e))
    | inr (inl e) ↦ inl e
    | inr (inr m) ↦ inr (insert_by-Has a l x (inr m))
  ])
  | inr here ↦ rw here h
]

sort_by-Has : (l : List Net) (x : Net) → Has x l → Has x (sort_by compare_net_names l)
unfolding sort_by
sort_by-Has [] x h = h
sort_by-Has (a ∷ l) x (inl e) = insert_by-Has a _ x (inl e)
sort_by-Has (a ∷ l) x (inr m) = insert_by-Has a _ x (inr (sort_by-Has l x m))

module _ (access : Option UserAccess) (slice : NetSlice) (nets : List Net) where
  -- A net that the user may be asked about.
  abbrev pub IsAlike : Net → Type 0
  IsAlike net =
      Has net nets × (is_recurring slice net ≡ true) × (is_offered access slice net ≡ true)

  abbrev recurring : List Net
  recurring = nets_where (is_recurring slice) nets

  abbrev alike : List Net
  alike = nets_where (is_offered access slice) recurring

  alike-IsAlike : (net : Net) → Has net alike → IsAlike net
  alike-IsAlike net h =
      let a = nets_where-Has (is_offered access slice) recurring net h in
      let b = nets_where-Has (is_recurring slice) nets net a.0 in (b.0, b.1, a.1)

  IsAlike-sorted : (net : Net) → IsAlike net → Has net (sort_by compare_net_names alike)
  IsAlike-sorted net (h, r, o) = sort_by-Has alike net (
      Has-nets_where (is_offered access slice) recurring net
        (Has-nets_where (is_recurring slice) nets net h r) o)

  -- The first of the nets that are alike, by name.
  abbrev pub IsFirst : Net → Type 0
  IsFirst first = IsAlike first × ((net : Net) → IsAlike net → (first ≡ net) ⊎ InOrder first net)

  head-IsFirst :
      (first : Net) (rest : List Net)
      → sort_by compare_net_names alike ≡ first ∷ rest
      → IsFirst first
  head-IsFirst first rest e = (is_alike_first.0, behind)
    where
      is_alike_first : All IsAlike (first ∷ rest)
      is_alike_first =
          let all : All IsAlike (sort_by compare_net_names alike) =
            sort_by-All compare_net_names IsAlike alike (All-of_Has IsAlike alike alike-IsAlike) in
          rw e at all

      sorted : IsSorted InOrder (first ∷ rest)
      sorted =
          let all : IsSorted InOrder (sort_by compare_net_names alike) =
            sort_by-IsSorted compare_net_names InOrder (λ a b. compare_net_names-InOrder b a)
              compare_net_names-InOrder_of_false InOrder-trans alike in
          rw e at all

      behind : (net : Net) → IsAlike net → (first ≡ net) ⊎ InOrder first net
      behind net a =
          let there : Has net (first ∷ rest) = rw e at IsAlike-sorted net a in
          elim there [
            | inl same ↦ inl same
            | inr later ↦ inr (All-Has (InOrder first) rest net sorted.0 later)
          ]

module _ (s : Store) (access : Option UserAccess) (slice : NetSlice) (now : ℕ) where
  open s use {Db, get_all_nets}

  -- The answer asks about `first`.
  abbrev pub Asks : Attempt (RemoteCommandResult × Db) → Db → Net → Type 0
  Asks result db first =
      (message : Bytes) × (result
        ≡ done (
          finish_answer
              (set_net first
                (record no_fields { session = session_label (first_instance slice.instances) }))
              (codes "needs-confirmation") message 2,
          db,
        ))

  offer-Asks :
      (db : Db) (nets found : List Net)
      → sort_by compare_net_names (alike access slice nets) ≡ found
      → (net : Net) → Has net found
      → (first : Net) × (IsFirst access slice nets first)
        × Asks
            (done (
              offer slice
                  (record no_fields { session = session_label (first_instance slice.instances) })
                  found,
              db,
            ))
            db
            first
  unfolding offer
  offer-Asks db nets [] e net h = elim h [ ]
  offer-Asks db nets (first ∷ rest) e net h =
      (first, head-IsFirst access slice nets first rest e, (_, refl))

  offers :
      (command : RemoteCommand) (db : Db) (nets : List Net)
      → slice.net.is_ad_hoc ≡ false
      → command.has_confirm_net ≡ false
      → get_all_nets db ≡ done nets
      → find_named (nets_where (is_recurring slice) nets) slice.net.name ≡ none
      → run_session_import s access slice now command db
        ≡ done (
          offer slice
              (record no_fields { session = session_label (first_instance slice.instances) })
              (sort_by compare_net_names (alike access slice nets)),
          db,
        )
  unfolding run_session_import import_recurring import_unconfirmed
  offers command db nets ad_hoc unconfirmed all unnamed = simp (ad_hoc, unconfirmed, all, unnamed)

  -- Where a recurring net's session is imported with no net confirmed, no recurring net on its
  -- service has its name, and some net is alike (one here that is recurring, on its service,
  -- similar in name and one that the user may log), the user is asked to confirm a net, the
  -- database stays as it is, and that net is the first that is alike: its name in capital letters
  -- precedes those of the others in the order of a dictionary over bytes, or is the same and its
  -- name does not come behind theirs.
  pub run_session_import-IsFirst :
      (command : RemoteCommand) (db : Db) (nets : List Net) (net : Net)
      → slice.net.is_ad_hoc ≡ false
      → command.has_confirm_net ≡ false
      → get_all_nets db ≡ done nets
      → find_named (nets_where (is_recurring slice) nets) slice.net.name ≡ none
      → IsAlike access slice nets net
      → (first : Net) × IsFirst access slice nets first
        × Asks (run_session_import s access slice now command db) db first
  run_session_import-IsFirst command db nets net ad_hoc unconfirmed all unnamed a =
      rw (offers command db nets ad_hoc unconfirmed all unnamed) (
        offer-Asks db nets (sort_by compare_net_names (alike access slice nets)) refl net
          (IsAlike-sorted access slice nets net a))
