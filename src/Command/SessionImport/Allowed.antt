-- ===== src/Command/SessionImport/Allowed.antt =====
-- What a session that is pushed may change.
use quick_logger.Prelude.{
  ℕ, ◌≡◌, refl, ◌⊎◌, inl, inr, Bool, true, false, List, Option, none, some, ◌==◌, Bool-cases, Bytes,
}
use quick_logger.Access.{Net, UserAccess}
use quick_logger.Text.NetName.{net_names_are_the_same}
use quick_logger.Command.Answer.{RemoteCommandResult, RemoteResultFields, make_result}
use quick_logger.Command.Parse.{RemoteCommand}
use quick_logger.Command.Nets.{nets_where, find_named}
use quick_logger.Command.Store.{Store, NetInstance, NetSlice}
use quick_logger.Command.Import.{finish_answer, set_net, may_log, is_alike, is_recurring}
use quick_logger.Command.SessionImport.{
  first_instance, add_session, import_into, add_ad_hoc, import_ad_hoc, import_confirmed,
  import_unconfirmed, import_recurring, run_session_import,
}
use quick_logger.Command.Throwing.{done, Ends, >>=-Ends, Ends-done, Ends-mono, if-Ends}
use quick_logger.Command.Nets.Found.{Has, nets_where-Has, find_named-Has}
use quick_logger.Command.Store.Change.{IsChange, Commits, IsChange-mono, in_transaction-IsChange}

-- What allows the change of a net's session.
abbrev pub IsLoggable : Option UserAccess → NetSlice → List Net → Type 0
IsLoggable access slice nets =
    (net : Net) × Has net nets
    × (is_recurring slice net ≡ true)
    × (is_alike slice net ≡ true)
    × (may_log access net ≡ true)

-- A recurring net that is found by its name.
pub find_recurring-Has :
    (slice : NetSlice) (nets : List Net) (name : Bytes) (net : Net)
    → find_named (nets_where (is_recurring slice) nets) name ≡ some net
    → Has net nets × (is_recurring slice net ≡ true) × (net_names_are_the_same net.name name ≡ true)
find_recurring-Has slice nets name net h =
    let found = find_named-Has (nets_where (is_recurring slice) nets) name net h in
    let kept = nets_where-Has (is_recurring slice) nets net found.0 in (kept.0, kept.1, found.1)

module _ (s : Store) where
  open s use {Db, get_all_nets}

  add_session-Commits :
      (slice : NetSlice) (fields : RemoteResultFields) (net : Net) (db : Db) (there : Bool)
      (Allowed : Type 0)
      → Allowed
      → Ends (Commits s Allowed) (add_session s slice fields net db there)
  unfolding add_session finish_answer make_result
  add_session-Commits slice fields net db true Allowed a = λ e. cc
  add_session-Commits slice fields net db false Allowed a =
      >>=-Ends _ (s.apply_session_slice db slice net.id) _ (λ written _.
        elim (Bool-cases (written.0 == 0)) [
          | inl failed ↦ rw failed (λ e. cc)
          | inr added ↦ rw added (λ e. (refl, a))
        ])

  import_into-IsChange :
      (access : Option UserAccess) (slice : NetSlice) (fields : RemoteResultFields)
      (nets : List Net) (net : Net) (db : Db)
      → Has net nets
      → is_recurring slice net ≡ true
      → is_alike slice net ≡ true
      → Ends
          (IsChange s (IsLoggable access slice nets) db)
          (import_into s access slice fields net db)
  unfolding import_into
  import_into-IsChange access slice fields nets net db h1 h2 h3 =
      elim (Bool-cases (may_log access net)) [
        | inr not_mine ↦ rw not_mine (inl refl)
        | inl mine ↦
            let source = first_instance slice.instances in
            rw mine (
              in_transaction-IsChange s (IsLoggable access slice nets) db _ (
                >>=-Ends {B = Bool × RemoteCommandResult × Db}
                  (Commits s (IsLoggable access slice nets))
                  (s.has_net_instance db net.id source.instance_date source.started_at)
                  (add_session s slice (set_net net fields) net db)
                  (λ there _.
                    add_session-Commits slice (set_net net fields) net db there
                      (IsLoggable access slice nets) (net, h1, h2, h3, mine))))
      ]

  add_ad_hoc-Commits :
      (slice : NetSlice) (fields : RemoteResultFields) (now : ℕ) (db : Db)
      (existing : Option NetInstance) (Allowed : Type 0)
      → Allowed
      → Ends (Commits s Allowed) (add_ad_hoc s slice fields now db existing)
  unfolding add_ad_hoc finish_answer make_result
  add_ad_hoc-Commits slice fields now db (some session) Allowed a = λ e. cc
  add_ad_hoc-Commits slice fields now db none Allowed a =
      >>=-Ends _ (s.apply_ad_hoc_session_slice db slice now) _ (λ written _.
        elim (Bool-cases (written.0 == 0)) [
          | inl failed ↦ rw failed (λ e. cc)
          | inr added ↦ rw added (λ e. (refl, a))
        ])

  import_ad_hoc-IsChange :
      (slice : NetSlice) (fields : RemoteResultFields) (now : ℕ) (db : Db) (Allowed : Type 0)
      → Allowed
      → Ends (IsChange s Allowed db) (import_ad_hoc s slice fields now db)
  unfolding import_ad_hoc
  import_ad_hoc-IsChange slice fields now db Allowed a =
      let source = first_instance slice.instances in
      in_transaction-IsChange s Allowed db _ (
        >>=-Ends {B = Bool × RemoteCommandResult × Db} (Commits s Allowed)
          (s.find_ad_hoc_session db slice.net.name source.instance_date source.started_at)
          (add_ad_hoc s slice fields now db)
          (λ existing _. add_ad_hoc-Commits slice fields now db existing Allowed a))

  import_confirmed-IsChange :
      (access : Option UserAccess) (slice : NetSlice) (fields : RemoteResultFields)
      (nets : List Net) (name : Bytes) (db : Db) (elsewhere : Option Net) (found : Option Net)
      → ((net : Net) → found ≡ some net → Has net nets × (is_recurring slice net ≡ true))
      → Ends
          (IsChange s (IsLoggable access slice nets) db)
          (import_confirmed s access slice fields name db found elsewhere)
  unfolding import_confirmed
  import_confirmed-IsChange access slice fields nets name db elsewhere (some net) h =
      elim (Bool-cases (is_alike slice net)) [
        | inl alike ↦ rw alike (
            import_into-IsChange access slice fields nets net db (h net refl).0 (h net refl).1
              alike)
        | inr unlike ↦ rw unlike (inl refl)
      ]
  import_confirmed-IsChange access slice fields nets name db none none h = inl refl
  import_confirmed-IsChange access slice fields nets name db (some net) none h = inl refl

  import_unconfirmed-IsChange :
      (access : Option UserAccess) (slice : NetSlice) (fields : RemoteResultFields)
      (nets : List Net) (recurring : List Net) (db : Db) (found : Option Net)
      → ((net : Net)
          → found ≡ some net
          → Has net nets × (is_recurring slice net ≡ true) × (is_alike slice net ≡ true))
      → Ends
          (IsChange s (IsLoggable access slice nets) db)
          (import_unconfirmed s access slice fields db recurring found)
  unfolding import_unconfirmed
  import_unconfirmed-IsChange access slice fields nets recurring db (some net) h =
      let found = h net refl in
      import_into-IsChange access slice fields nets net db found.0 found.1 found.2
  import_unconfirmed-IsChange access slice fields nets recurring db none h = inl refl

  import_recurring-IsChange :
      (access : Option UserAccess) (slice : NetSlice) (fields : RemoteResultFields)
      (command : RemoteCommand) (db : Db) (nets : List Net)
      → Ends
          (IsChange s (IsLoggable access slice nets) db)
          (import_recurring s access slice fields command db nets)
  unfolding import_recurring
  import_recurring-IsChange access slice fields command db nets =
      elim (Bool-cases command.has_confirm_net) [
        | inl confirm ↦ rw confirm (
            import_confirmed-IsChange access slice fields nets command.confirm_net db _ _ (λ net e.
              let found = find_recurring-Has slice nets command.confirm_net net e in
              (found.0, found.1)))
        | inr bare ↦ rw bare (
            import_unconfirmed-IsChange access slice fields nets _ db _ (λ net e.
              let found = find_recurring-Has slice nets slice.net.name net e in
              (found.0, found.1, unfold is_alike in rw found.2 refl)))
      ]

  -- What allows the change that a pushed session makes: it is an ad hoc one, or some net here is
  -- recurring, on its service, alike, and one the user may log.
  abbrev pub IsAllowed : Option UserAccess → NetSlice → Db → Type 0
  IsAllowed access slice db =
      (slice.net.is_ad_hoc ≡ true)
      ⊎ ((nets : List Net) × (get_all_nets db ≡ done nets) × IsLoggable access slice nets)

  pub run_session_import-Ends :
      (access : Option UserAccess) (slice : NetSlice) (now : ℕ) (command : RemoteCommand) (db : Db)
      → Ends
          (IsChange s (IsAllowed access slice db) db)
          (run_session_import s access slice now command db)
  unfolding run_session_import
  run_session_import-Ends access slice now command db =
      if-Ends _ slice.net.is_ad_hoc _ _
        (λ ad_hoc.
          if-Ends _ command.has_confirm_net _ _ (λ _. inl refl)
            (λ _. import_ad_hoc-IsChange slice _ now db _ (inl ad_hoc)))
        (λ _. >>=-Ends _ (get_all_nets db) _ (λ nets e.
          Ends-mono _ _ (import_recurring s access slice _ command db nets)
            (λ left h. IsChange-mono s _ _ db left (λ loggable. inr (nets, e, loggable)) h)
            (import_recurring-IsChange access slice _ command db nets)))

  -- If the import of a session changes the database then it answers success, and the session is an
  -- ad hoc one, or some net here is recurring, on the session's service, has the same or a similar
  -- name and is one that the user may log.
  pub run_session_import-IsChange :
      (access : Option UserAccess) (slice : NetSlice) (now : ℕ) (command : RemoteCommand)
      (db db' : Db) (result : RemoteCommandResult)
      → run_session_import s access slice now command db ≡ done (result, db')
      → IsChange s (IsAllowed access slice db) db (result, db')
  run_session_import-IsChange access slice now command db db' result e =
      Ends-done _ _ (result, db') (run_session_import-Ends access slice now command db) e
