-- ===== src/Command/NetImport/Allowed.antt =====
-- What a net that is pushed may change.
use quick_logger.Prelude.{
  ℕ, ◌≡◌, refl, ◌⊎◌, inl, inr, Bool, true, false, not, ◌&&◌, List, [], ◌∷◌, Option, none, some,
  ◌==◌, Bool-cases, Bytes,
}
use quick_logger.Access.{Net, UserAccess}
use quick_logger.Text.NetName.{net_names_are_the_same}
use quick_logger.Command.Answer.{RemoteCommandResult, RemoteResultFields, make_result}
use quick_logger.Command.Parse.{RemoteCommand}
use quick_logger.Command.Nets.{nets_where, find_named}
use quick_logger.Command.Nets.Found.{Has}
use quick_logger.Command.Import.{finish_answer, set_net, no_fields, may_log, is_alike, is_recurring}
use quick_logger.Command.SessionImport.Allowed.{find_recurring-Has}
use quick_logger.Command.NetImport.{
  set_counts, ask, merge_plan, merge_into, grant_added, may_create, add_as_new_net, merge_confirmed,
  ask_alike, merge_unconfirmed, merge_recurring, run_net_import,
}
use quick_logger.Command.Store.{Store, NetSlice, NetMergePlan}
use quick_logger.Command.Store.Change.{IsChange, Commits, IsChange-mono, in_transaction-IsChange}
use quick_logger.Command.Throwing.{done, Ends, >>=-Ends, Ends-done, Ends-mono, if-Ends}

-- The user confirmed a net here: it is recurring, on the service of the net that is pushed, alike,
-- and one the user may log.
abbrev pub IsConfirmed : Option UserAccess → NetSlice → RemoteCommand → List Net → Type 0
IsConfirmed access slice command nets =
    (command.has_confirm_net ≡ true)
    × (net : Net) × Has net nets
    × (net_names_are_the_same net.name command.confirm_net ≡ true)
    × (is_recurring slice net ≡ true)
    × (is_alike slice net ≡ true)
    × (may_log access net ≡ true)

-- No net was confirmed, no recurring net on its service has its name, and the user may create nets.
abbrev pub IsAddition : Option UserAccess → NetSlice → RemoteCommand → List Net → Type 0
IsAddition access slice command nets =
    (command.has_confirm_net ≡ false)
    × (find_named (nets_where (is_recurring slice) nets) slice.net.name ≡ none)
    × (may_create access ≡ true)

-- What a pushed net may change: a net that was confirmed is merged into, or a net is added.
abbrev pub MayMerge : Option UserAccess → NetSlice → RemoteCommand → List Net → Type 0
MayMerge access slice command nets =
    IsConfirmed access slice command nets ⊎ IsAddition access slice command nets

module _ (s : Store) where
  open s use {Db, get_all_nets}

  merge_plan-Commits :
      (slice : NetSlice) (fields : RemoteResultFields) (net : Net) (db : Db) (plan : NetMergePlan)
      (Allowed : Type 0)
      → Allowed
      → Ends (Commits s Allowed) (merge_plan s slice fields net db plan)
  unfolding merge_plan finish_answer make_result
  merge_plan-Commits slice fields net db plan Allowed a =
      if-Ends _ (fields.new_sessions == 0 && fields.new_saved_stations == 0) _ _ (λ _ e. cc)
        (λ _. >>=-Ends _ (s.apply_net_merge db slice plan) _ (λ _ _ e. (refl, a)))

  merge_into-IsChange :
      (access : Option UserAccess) (slice : NetSlice) (net : Net) (db : Db) (Allowed : Type 0)
      → (may_log access net ≡ true → Allowed)
      → Ends (IsChange s Allowed db) (merge_into s access slice net db)
  unfolding merge_into
  merge_into-IsChange access slice net db Allowed a = elim (Bool-cases (may_log access net)) [
    | inr not_mine ↦ rw not_mine (inl refl)
    | inl mine ↦ rw mine (
        in_transaction-IsChange s Allowed db _ (
          >>=-Ends {B = Bool × RemoteCommandResult × Db} (Commits s Allowed)
            (s.plan_net_merge db slice net.id)
            (λ plan. merge_plan s slice (set_counts plan (set_net net no_fields)) net db plan)
            (λ plan _. merge_plan-Commits slice _ net db plan Allowed (a mine))))
  ]

  add_as_new_net-IsChange :
      (access : Option UserAccess) (slice : NetSlice) (now : ℕ) (db : Db) (Allowed : Type 0)
      → (may_create access ≡ true → Allowed)
      → Ends (IsChange s Allowed db) (add_as_new_net s access slice now db)
  unfolding add_as_new_net finish_answer make_result
  add_as_new_net-IsChange access slice now db Allowed a = elim (Bool-cases (may_create access)) [
    | inr not_mine ↦ rw not_mine (inl refl)
    | inl mine ↦ rw mine (
        in_transaction-IsChange s Allowed db _ (
          >>=-Ends {B = Bool × RemoteCommandResult × Db} (Commits s Allowed)
            (s.apply_net_slice db slice now) _
            (λ added _.
              >>=-Ends {B = Bool × RemoteCommandResult × Db} (Commits s Allowed)
                (grant_added s access added.0 added.1) _ (λ _ _ e. (refl, a mine)))))
  ]

  ask-IsChange :
      (access : Option UserAccess) (slice : NetSlice) (net : Net) (db : Db) (Allowed : Type 0)
      → Ends (IsChange s Allowed db) (ask s access slice net db)
  unfolding ask
  ask-IsChange access slice net db Allowed =
      if-Ends _ (not (may_log access net)) _ _ (λ _. inl refl)
        (λ _. >>=-Ends _ (s.plan_net_merge db slice net.id) _ (λ _ _. inl refl))

  merge_confirmed-IsChange :
      (access : Option UserAccess) (slice : NetSlice) (name : Bytes) (db : Db) (found : Option Net)
      (Allowed : Type 0)
      → ((net : Net)
          → found ≡ some net
          → is_alike slice net ≡ true
          → may_log access net ≡ true
          → Allowed)
      → Ends (IsChange s Allowed db) (merge_confirmed s access slice name db found)
  unfolding merge_confirmed
  merge_confirmed-IsChange access slice name db none Allowed a = inl refl
  merge_confirmed-IsChange access slice name db (some net) Allowed a =
      elim (Bool-cases (is_alike slice net)) [
        | inl alike ↦ rw alike (merge_into-IsChange access slice net db Allowed (a net refl alike))
        | inr unlike ↦ rw unlike (inl refl)
      ]

  ask_alike-IsChange :
      (access : Option UserAccess) (slice : NetSlice) (now : ℕ) (db : Db) (nets : List Net)
      (Allowed : Type 0)
      → (may_create access ≡ true → Allowed)
      → Ends (IsChange s Allowed db) (ask_alike s access slice now db nets)
  unfolding ask_alike
  ask_alike-IsChange access slice now db [] Allowed a =
      add_as_new_net-IsChange access slice now db Allowed a
  ask_alike-IsChange access slice now db (net ∷ _) Allowed a =
      ask-IsChange access slice net db Allowed

  merge_unconfirmed-IsChange :
      (access : Option UserAccess) (slice : NetSlice) (now : ℕ) (db : Db) (recurring : List Net)
      (found : Option Net) (Allowed : Type 0)
      → (found ≡ none → may_create access ≡ true → Allowed)
      → Ends (IsChange s Allowed db) (merge_unconfirmed s access slice now db recurring found)
  unfolding merge_unconfirmed
  merge_unconfirmed-IsChange access slice now db recurring (some net) Allowed a =
      ask-IsChange access slice net db Allowed
  merge_unconfirmed-IsChange access slice now db recurring none Allowed a =
      ask_alike-IsChange access slice now db _ Allowed (a refl)

  merge_recurring-IsChange :
      (access : Option UserAccess) (slice : NetSlice) (now : ℕ) (command : RemoteCommand) (db : Db)
      (nets : List Net) (elsewhere : Option Net)
      → Ends
          (IsChange s (MayMerge access slice command nets) db)
          (merge_recurring s access slice now command db nets elsewhere)
  unfolding merge_recurring
  merge_recurring-IsChange access slice now command db nets (some net) = inl refl
  merge_recurring-IsChange access slice now command db nets none =
      if-Ends _ command.has_confirm_net _ _
        (λ confirm.
          merge_confirmed-IsChange access slice command.confirm_net db _ _ (λ net e alike mine.
            let found = find_recurring-Has slice nets command.confirm_net net e in
            inl (confirm, net, found.0, found.2, found.1, alike, mine)))
        (λ bare.
          merge_unconfirmed-IsChange access slice now db _ _ _
            (λ unnamed mine. inr (bare, unnamed, mine)))

  pub run_net_import-Ends :
      (access : Option UserAccess) (slice : NetSlice) (now : ℕ) (command : RemoteCommand) (db : Db)
      → Ends
          (IsChange s
            ((nets : List Net) × (get_all_nets db ≡ done nets) × MayMerge access slice command nets)
            db)
          (run_net_import s access slice now command db)
  unfolding run_net_import
  run_net_import-Ends access slice now command db =
      if-Ends _ slice.net.is_ad_hoc _ _ (λ _. inl refl)
        (λ _. >>=-Ends _ (get_all_nets db) _ (λ nets e.
          Ends-mono _ _ (merge_recurring s access slice now command db nets _)
            (λ left h. IsChange-mono s _ _ db left (λ allowed. (nets, e, allowed)) h)
            (merge_recurring-IsChange access slice now command db nets _)))

  -- If the import of a net changes the database then it answers success, and either the user
  -- confirmed a net here that is recurring, on its service, has the same or a similar name and is
  -- one that the user may log, or none was confirmed, no recurring net on its service has its name
  -- and the user may create nets.
  pub run_net_import-IsChange :
      (access : Option UserAccess) (slice : NetSlice) (now : ℕ) (command : RemoteCommand)
      (db db' : Db) (result : RemoteCommandResult)
      → run_net_import s access slice now command db ≡ done (result, db')
      → IsChange s
          ((nets : List Net) × (get_all_nets db ≡ done nets) × MayMerge access slice command nets)
          db
          (result, db')
  run_net_import-IsChange access slice now command db db' result e =
      Ends-done _ _ (result, db') (run_net_import-Ends access slice now command db) e
