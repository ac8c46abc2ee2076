-- ===== src/AdminController/Steps.antt =====
-- A reconciliation of an `AdminConnection` is calls that are no statements and `GetDatabaseConnection`.
use mysql_dba_operator.Base.{Bytes, Option, none, some, List, [], ◌∷◌}
use mysql_dba_operator.Api.{NamespacedName, AdminConnection}
use mysql_dba_operator.Orm.{Handle}
use mysql_dba_operator.World.{Env, World, Error, Row, not_found, failure, ok, err}
use mysql_dba_operator.World.Exec.{Outcome, done, panic, Exec}
use mysql_dba_operator.World.Traces.{Moves, Moves-pure, Moves-crash, Moves-look, Moves-bind}
use mysql_dba_operator.World.Steps.{AdmitsQuietCalls, Quiet-call, Quiet-note}
use mysql_dba_operator.Connection.{get_database_connection}
use mysql_dba_operator.AdminController.{
  Groups, caught, failed_with, or_crash, variable_of, get_variable, get_char_sets, fill_charsets,
  fill_collation, fill_character_set, inspect, resume, synced, found, reconcile,
}

module _ {R : World → World → Type 0} (q : AdmitsQuietCalls R) (env : Env)
    (connects : (admin : AdminConnection) → Moves R (get_database_connection env admin))
    (order : Groups → Groups) where
  caught-Steps : {A : Type 0} (m : Exec A) → Moves R m → Moves R (caught m)
  unfolding caught
  caught-Steps m h = record { at = h.at }

  or_crash-Steps : {A : Type 0} (o : Option A) → Moves R (or_crash env order o)
  unfolding or_crash
  or_crash-Steps none = Moves-crash q.order
  or_crash-Steps (some a) = Moves-pure q.order a

  variable_of-Steps : (rows : List Row) → Moves R (variable_of env order rows)
  unfolding variable_of
  variable_of-Steps [] = Moves-pure q.order _
  variable_of-Steps (row ∷ []) =
      Moves-bind q.order _ _ (or_crash-Steps _) (λ value. Moves-pure q.order (ok value))
  variable_of-Steps (row ∷ other ∷ rows) = Moves-pure q.order _

  get_variable-Steps : (name : Bytes) (db : Handle) → Moves R (get_variable env order name db)
  unfolding get_variable
  get_variable-Steps name db =
      Moves-bind q.order _ _ (Quiet-call q _ _ (λ _. tt))
        (elim [ err e ↦ Moves-pure q.order (err e) | ok rows ↦ variable_of-Steps rows ])

  get_char_sets-Steps : (db : Handle) → Moves R (get_char_sets env order db)
  unfolding get_char_sets
  get_char_sets-Steps db = Moves-bind q.order _ _ (Quiet-call q _ _ (λ _. tt)) (elim [
    | err e ↦ Moves-pure q.order (err e)
    | ok rows ↦ Moves-bind q.order _ _ (or_crash-Steps _) (λ groups. Moves-pure q.order _)
  ])

  fill_charsets-Steps :
      (db : Handle) (admin : AdminConnection) → Moves R (fill_charsets env order db admin)
  unfolding fill_charsets failed_with
  fill_charsets-Steps db admin =
      Moves-bind q.order _ _ (caught-Steps _ (get_char_sets-Steps db)) (elim [
        | panic ↦ Moves-pure q.order _
        | done (err e) ↦ Moves-pure q.order _
        | done (ok found) ↦ Moves-pure q.order _
      ])

  fill_collation-Steps :
      (db : Handle) (admin : AdminConnection) → Moves R (fill_collation env order db admin)
  unfolding fill_collation failed_with
  fill_collation-Steps db admin =
      Moves-bind q.order _ _ (caught-Steps _ (get_variable-Steps _ db)) (elim [
        | panic ↦ Moves-pure q.order _
        | done (err e) ↦ Moves-pure q.order _
        | done (ok found) ↦ fill_charsets-Steps db _
      ])

  fill_character_set-Steps :
      (db : Handle) (admin : AdminConnection) → Moves R (fill_character_set env order db admin)
  unfolding fill_character_set failed_with
  fill_character_set-Steps db admin =
      Moves-bind q.order _ _ (caught-Steps _ (get_variable-Steps _ db)) (elim [
        | panic ↦ Moves-pure q.order _
        | done (err e) ↦ Moves-pure q.order _
        | done (ok found) ↦ fill_collation-Steps db _
      ])

  inspect-Steps : (admin : AdminConnection) → Moves R (inspect env order admin)
  unfolding inspect failed_with
  inspect-Steps admin = Moves-bind q.order _ _ (caught-Steps _ (connects admin)) (elim [
    | panic ↦ Moves-pure q.order _
    | done (err e) ↦ Moves-pure q.order _
    | done (ok db) ↦ fill_character_set-Steps db admin
  ])

  resume-Steps : (o : Outcome (Option Error)) → Moves R (resume env order o)
  unfolding resume
  resume-Steps panic = Moves-crash q.order
  resume-Steps (done result) = Moves-pure q.order result

  synced-Steps : (admin : AdminConnection) → Moves R (synced env order admin)
  unfolding synced
  synced-Steps admin = Moves-bind q.order _ _ (Moves-look q.order _) (λ time.
      Moves-bind q.order _ _ (inspect-Steps _)
        (λ ending. Moves-bind q.order _ _ (Quiet-note q _ tt) (λ _. resume-Steps ending.0)))

  pub reconcile-Steps : (name : NamespacedName) → Moves R (reconcile env order name)
  unfolding reconcile found
  reconcile-Steps name = Moves-bind q.order _ _ (Quiet-call q _ _ (λ _. tt)) (elim [
    | err not_found ↦ Moves-pure q.order _
    | err (failure e) ↦ Moves-pure q.order _
    | ok admin ↦ synced-Steps admin
  ])
