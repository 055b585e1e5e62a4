-- ===== src/Command/Store/Change.antt =====
-- What a transaction may change.
use quick_logger.Prelude.{◌≡◌, refl, ◌⊎◌, inl, inr, Bool, true, false}
use quick_logger.Command.Answer.{RemoteCommandResult}
use quick_logger.Command.Store.{Store, end_transaction, in_transaction}
use quick_logger.Command.Throwing.{Attempt, Ends, >>=-Ends, Ends-done}

module _ (s : Store) where
  open s use {Db, get_all_nets}

  -- Nothing is changed, or the answer is a success and what allows the change holds.
  abbrev pub IsChange : Type 0 → Db → RemoteCommandResult × Db → Type 0
  IsChange Allowed db (result, db') = (db' ≡ db) ⊎ ((result.exit_status ≡ 0) × Allowed)

  -- What is committed is a success that is allowed.
  abbrev pub Commits : Type 0 → Bool × RemoteCommandResult × Db → Type 0
  Commits Allowed ended = ended.0 ≡ true → (ended.1.exit_status ≡ 0) × Allowed

  pub IsChange-mono :
      (Allowed Wider : Type 0) (db : Db) (left : RemoteCommandResult × Db)
      → (Allowed → Wider)
      → IsChange Allowed db left
      → IsChange Wider db left
  IsChange-mono Allowed Wider db (result, db') f (inl same) = inl same
  IsChange-mono Allowed Wider db (result, db') f (inr (success, allowed)) = inr (success, f allowed)

  pub end_transaction-IsChange :
      (Allowed : Type 0) (db : Db) (ended : Bool × RemoteCommandResult × Db)
      → Commits Allowed ended
      → Ends (IsChange Allowed db) (end_transaction s db ended)
  unfolding end_transaction
  end_transaction-IsChange Allowed db (true, result, db') h =
      >>=-Ends _ (s.commit_write db') _ (λ _ _. inr (h refl))
  end_transaction-IsChange Allowed db (false, result, db') h = inl refl

  -- A transaction whose body commits only successes, where they are allowed.
  pub in_transaction-IsChange :
      (Allowed : Type 0) (db : Db) (body : Db → Attempt (Bool × RemoteCommandResult × Db))
      → Ends (Commits Allowed) (body db)
      → Ends (IsChange Allowed db) (in_transaction s db body)
  unfolding in_transaction
  in_transaction-IsChange Allowed db body h = >>=-Ends _ (s.begin_write db) _ (λ _ _.
      >>=-Ends _ (body db) _
        (λ ended e. end_transaction-IsChange Allowed db ended (Ends-done _ (body db) ended h e)))
