-- ===== src/Command/Export/Bounds.antt =====
-- How many sessions `ExportSessions` sends.
use mathlib.Core.Path.{subst}
use quick_logger.Prelude.{
  ℕ, suc, ◌+◌, ◌≤◌, ◌≡◌, ap, inl, inr, Bool, false, not, ◌||◌, List, [], ◌∷◌, ◌++◌, Option, none,
  some, Bool-cases, leb, Bytes, length, length-append, arith,
}
use quick_logger.Access.{Net}
use quick_logger.Command.Store.{Store, NetInstance, NetSlice}
use quick_logger.Command.Throwing.{Attempt, threw, done, Ends, Ends-done}
use quick_logger.Command.Export.{
  Exports, Sent, names_are, not_written, is_closed, max_exported_sessions, free_name,
  session_export_name, write_export, write_session, export_from, export_all,
}

-- Each session is sent or counted as not sent, and 300 are sent at most.
abbrev pub IsAccounted : ℕ → Sent → Type 0
IsAccounted total (names_are names not_sent) =
    (length names ≤ max_exported_sessions) × (length names + not_sent ≡ total)
IsAccounted total (not_written name error) = Unit

write_session-Ends :
    (P : Sent → Type 0) (failing : Bytes → Option Bytes) (name : Bytes) (files : Exports)
    (read : Attempt NetSlice) (next : NetSlice → Attempt Sent × Exports)
    → ((error : Bytes) → P (not_written name error))
    → ((slice : NetSlice) → Ends P (next slice).0)
    → Ends P (write_session failing name files read next).0
unfolding write_session
write_session-Ends P failing name files (threw what) next f g = tt
write_session-Ends P failing name files (done slice) next f g =
    elim (failing name)
      as (λ fails.
        Ends P
          (elim fails as (λ _. Attempt Sent × Exports) [
            | some error ↦ (done (not_written name error), files)
            | none ↦ next slice
          ]).0) [ some error ↦ f error | none ↦ g slice ]

Ends-total :
    (total total' : ℕ) (m : Attempt Sent)
    → total ≡ total'
    → Ends (IsAccounted total) m
    → Ends (IsAccounted total') m
Ends-total total total' m e h = subst (λ n. Ends (IsAccounted n) m) e h

-- There is room for one more name.
room :
    (is_sent : Bool) (names : List Bytes) (name : Bytes)
    → (not is_sent || leb max_exported_sessions (length names)) ≡ false
    → length (names ++ name ∷ []) ≤ max_exported_sessions
room is_sent names name h = ground (arith, length-append names (name ∷ []))

module _ (s : Store) (failing : Bytes → Option Bytes) where
  open s use {Db}

  export_from-Ends :
      (db : Db) (net : Net) (names : List Bytes) (not_sent : ℕ) (files : Exports)
      (sessions : List NetInstance)
      → length names ≤ max_exported_sessions
      → Ends
          (IsAccounted (length names + not_sent + length sessions))
          (export_from s failing db net names not_sent files sessions).0
  unfolding export_from
  export_from-Ends db net names not_sent files [] h = (h, omega arith)
  export_from-Ends db net names not_sent files (session ∷ sessions) h =
      let name = free_name names (session_export_name net session) session.id in
      elim (Bool-cases
        (not (is_closed session.status) || leb max_exported_sessions (length names))) [
          | inl skipped ↦ rw skipped (
              Ends-total _ _ _ (omega arith)
                (export_from-Ends db net names (suc not_sent) files sessions h))
          | inr sent ↦ rw sent (
              write_session-Ends _ failing name files _ _ (λ _. tt)
                (λ slice. Ends-total _ _ _ (omega (arith, length-append names (name ∷ []))) (
                  export_from-Ends db net (names ++ name ∷ []) not_sent
                    (write_export files name slice) sessions
                    (room (is_closed session.status) names name sent))))
        ]

  -- If ExportSessions gets through a net's sessions then it sends 300 at most, and counts every
  -- other one as not sent.
  pub export_all-IsAccounted :
      (db : Db) (net : Net) (files : Exports) (sessions : List NetInstance) (names : List Bytes)
      (not_sent : ℕ) (files' : Exports)
      → export_all s failing db net files (done sessions)
        ≡ (done (names_are names not_sent), files')
      → (length names ≤ max_exported_sessions) × (length names + not_sent ≡ length sessions)
  unfolding export_all
  export_all-IsAccounted db net files sessions names not_sent files' ran =
      let none_yet : List Bytes = [] in
      let sent =
        Ends-done (IsAccounted (length none_yet + 0 + length sessions)) _ (names_are names not_sent)
          (export_from-Ends db net none_yet 0 files sessions (omega arith))
          (ap (λ left. left.0) ran) in
      (sent.0, omega (arith, sent.1))
