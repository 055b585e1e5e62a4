-- ===== src/Command/Store.antt =====
-- What src/remote_command.cpp asks of the database (src/db/database.cpp) and of the slices of a net
-- (src/net_slice.cpp): an interface whose operations may throw. Numbers and times are not negative.
pub mod Change
use quick_logger.Prelude.{ℕ, Bool, true, false, List, [], ◌∷◌, ◌++◌, Option, Bytes, codes}
use quick_logger.Access.{Net, UserAccess}
use quick_logger.Command.Answer.{RemoteCommandResult}
use quick_logger.Command.Throwing.{Attempt, threw, done, ◌>>=◌}

pub data NetInstanceStatus : Type 0 where
  still_open closed : NetInstanceStatus

-- The fields of `NetInstance` that the commands read.
pub record NetInstance : Type 0 where
  pub id : ℕ
  pub net_id : ℕ
  pub instance_date : Bytes
  pub status : NetInstanceStatus
  pub started_at : ℕ

-- `contents` is for the stations and check-ins, which only the database's functions read.
pub record NetSlice : Type 0 where
  pub net : Net
  pub instances : List NetInstance
  pub contents : Bytes

pub data MergeSessionKind : Type 0 where
  new already_here differs : MergeSessionKind

-- `NetMergePlan`, with the kinds of its sessions.
pub record NetMergePlan : Type 0 where
  pub target_net_id : ℕ
  pub new_saved_stations : ℕ
  pub sessions : List MergeSessionKind

pub record Store : Type 1 where
  pub Db : Type 0
  -- `BEGIN IMMEDIATE` and `COMMIT`.
  pub begin_write : Db → Attempt (Unit {0})
  pub commit_write : Db → Attempt (Unit {0})
  pub get_all_nets : Db → Attempt (List Net)
  pub get_net_instances_for_net : Db → ℕ → Attempt (List NetInstance)
  pub load_access : Db → Bytes → Attempt UserAccess
  pub has_net_instance : Db → ℕ → Bytes → ℕ → Attempt Bool
  pub find_ad_hoc_session : Db → Bytes → Bytes → ℕ → Attempt (Option NetInstance)
  -- The id of the session, or 0 with an error, and the database then.
  pub apply_session_slice : Db → NetSlice → ℕ → Attempt (ℕ × Bytes × Db)
  -- The ids of the session and the net, or 0 and an error.
  pub apply_ad_hoc_session_slice : Db → NetSlice → ℕ → Attempt (ℕ × ℕ × Bytes × Db)
  pub plan_net_merge : Db → NetSlice → ℕ → Attempt NetMergePlan
  pub apply_net_merge : Db → NetSlice → NetMergePlan → Attempt Db
  pub apply_net_slice : Db → NetSlice → ℕ → Attempt (ℕ × Db)
  pub grant_net : Db → Bytes → ℕ → Bytes → Attempt Db
  pub gather_net_slice : Db → ℕ → Attempt NetSlice
  pub gather_session_slice : Db → ℕ → Attempt NetSlice
  -- The nets of a file opened as a database, each with what belongs to it.
  pub slices_in : Bytes → Attempt (List NetSlice)

module _ (s : Store) where
  open s use {Db, begin_write, commit_write}

  -- The end of a command's `WriteTransaction`, from its answer, the database as written, and whether
  -- `Commit` was called: if it was not, the writes are undone.
  unfoldable pub end_transaction :
      Db → Bool × RemoteCommandResult × Db → Attempt (RemoteCommandResult × Db)
  end_transaction db (true, result, db') = commit_write db' >>= λ _. done (result, db')
  end_transaction db (false, result, db') = done (result, db)

  unfoldable pub in_transaction :
      Db → (Db → Attempt (Bool × RemoteCommandResult × Db)) → Attempt (RemoteCommandResult × Db)
  in_transaction db body = begin_write db >>= λ _. body db >>= end_transaction db

-- `ReadNetSliceFile` and `ReadSessionSliceFile`, with what they store in `*error`.
pub data SliceRead : Type 0 where
  slice_is : NetSlice → SliceRead
  not_a_slice : Bytes → SliceRead

unfoldable pub read_net_slice_file : Attempt (List NetSlice) → SliceRead
read_net_slice_file (threw what) = not_a_slice what
read_net_slice_file (done []) = not_a_slice (codes "This file has no net in it.")
read_net_slice_file (done (slice ∷ [])) = slice_is slice
read_net_slice_file (done (_ ∷ _ ∷ _)) =
    not_a_slice (codes "This file has more than one net in it -- not a single net export.")

abbrev only_session : NetSlice → List NetInstance → SliceRead
only_session slice [] = not_a_slice (codes "This file has no session in it.")
only_session slice (_ ∷ []) = slice_is slice
only_session slice (_ ∷ _ ∷ _) = not_a_slice (
    codes "This file has more than one session in it -- a whole net's export "
    ++ codes "(.qlnet), not a single session's.")

abbrev one_session : SliceRead → SliceRead
one_session (not_a_slice error) = not_a_slice error
one_session (slice_is slice) = only_session slice slice.instances

unfoldable pub read_session_slice_file : Attempt (List NetSlice) → SliceRead
unfolding read_net_slice_file
read_session_slice_file slices = one_session (read_net_slice_file slices)
