-- ===== src/Tests/Shelf.antt =====
-- A small database for the tests of the remote commands.
use quick_logger.Prelude.{
  ℕ, Bool, true, false, ◌&&◌, List, [], ◌∷◌, none, ◌==◌, Bytes, codes, equal, if◌then◌else◌,
}
use quick_logger.Access.{Net, amateur, UserAccess, access_admin}
use quick_logger.Command.Store.{Store, NetInstance, closed, NetSlice, new}
use quick_logger.Command.SessionImport.{first_instance}
use quick_logger.Command.Throwing.{done}

abbrev pub Shelf : Type 0
Shelf = List Net × List (ℕ × Bytes × ℕ)

abbrev pub has_session : List (ℕ × Bytes × ℕ) → ℕ → Bytes → ℕ → Bool
has_session [] id date started = false
has_session ((i, d, t) ∷ sessions) id date started =
    if (i == id) && equal d date && (t == started)
    then true
    else has_session sessions id date started

abbrev pub weekly : Net
weekly = record { id = 7; name = codes "Weekly Net"; service = amateur; is_ad_hoc = false }

abbrev pub tuesday : NetInstance
tuesday = record {
  id = 1;
  net_id = 7;
  instance_date = codes "2026-09-22";
  status = closed;
  started_at = 60;
}

abbrev pub slice : NetSlice
slice = record { net = weekly; instances = tuesday ∷ []; contents = [] }

abbrev pub admin : UserAccess
admin = record {
  username = codes "kx4evw";
  console = false;
  view_only = false;
  level = access_admin;
  restricted = true;
  grants = [];
}

abbrev pub shelf : Store
shelf = record {
  Db = Shelf;
  begin_write = λ db. done tt;
  commit_write = λ db. done tt;
  get_all_nets = λ db. done db.0;
  get_net_instances_for_net = λ db id. done (tuesday ∷ []);
  load_access = λ db username. done admin;
  has_net_instance = λ db id date started. done (has_session db.1 id date started);
  find_ad_hoc_session = λ db name date started. done none;
  apply_session_slice = λ db slice id. done (
    1,
    [],
    (
      db.0,
      (
        id,
        (first_instance slice.instances).instance_date,
        (first_instance slice.instances).started_at,
      )
          ∷ db.1,
    ),
  );
  apply_ad_hoc_session_slice = λ db slice now. done (1, 9, [], db);
  plan_net_merge = λ db slice id.
      done (record { target_net_id = id; new_saved_stations = 1; sessions = new ∷ [] });
  apply_net_merge = λ db slice plan. done db;
  apply_net_slice = λ db slice now. done (8, (slice.net ∷ db.0, db.1));
  grant_net = λ db username id granted_by. done db;
  gather_net_slice = λ db id. done slice;
  gather_session_slice = λ db id. done slice;
  slices_in = λ contents. done (slice ∷ []);
}
