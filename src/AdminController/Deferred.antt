-- ===== src/AdminController/Deferred.antt =====
-- The deferred update of the status in `Reconcile` of `AdminConnection` resources.
use mysql_dba_operator.Base.{◌≡◌, refl, Option, [], ◌∷◌, ◌++◌}
use mysql_dba_operator.Api.{NamespacedName, AdminConnection}
use mysql_dba_operator.Orm.{Handle}
use mysql_dba_operator.World.{Env, Error, Log, World, ok, err, get_admin, update_admin_status}
use mysql_dba_operator.World.Exec.{Outcome, done, panic, Exec, call, look, note}
use mysql_dba_operator.World.Total.{Returns, Total, Returns-pure, Returns-bind}
use mysql_dba_operator.AdminController.{
  Groups, caught, failed_with, with_status, with_message, fill_charsets, fill_collation,
  fill_character_set, inspect, resume, synced, found, reconcile,
}

caught-Total : {A : Type 0} (m : Exec A) → Total (caught m)
unfolding caught
caught-Total m = record { at = λ w. (_, refl, tt) }

-- Of the resource only the status is written, and the time in it is left.
abbrev Keeps : AdminConnection → AdminConnection → Type 0
Keeps admin final =
    (final.status.sync_time ≡ admin.status.sync_time)
    × (final.spec ≡ admin.spec)
    × (final.meta ≡ admin.meta)

module _ (env : Env) (order : Groups → Groups) where
  fill_charsets-Returns :
      (db : Handle) (admin : AdminConnection)
      → Returns (λ e. Keeps admin e.1) (fill_charsets env order db admin)
  unfolding fill_charsets failed_with with_status with_message
  fill_charsets-Returns db admin = Returns-bind _ _ (caught-Total _) (elim [
    | panic ↦ λ _. Returns-pure _ (refl, refl, refl)
    | done (err e) ↦ λ _. Returns-pure _ (refl, refl, refl)
    | done (ok c) ↦ λ _. Returns-pure _ (refl, refl, refl)
  ])

  fill_collation-Returns :
      (db : Handle) (admin : AdminConnection)
      → Returns (λ e. Keeps admin e.1) (fill_collation env order db admin)
  unfolding fill_collation failed_with with_status with_message
  fill_collation-Returns db admin = Returns-bind _ _ (caught-Total _) (elim [
    | panic ↦ λ _. Returns-pure _ (refl, refl, refl)
    | done (err e) ↦ λ _. Returns-pure _ (refl, refl, refl)
    | done (ok c) ↦ λ _. fill_charsets-Returns db _
  ])

  fill_character_set-Returns :
      (db : Handle) (admin : AdminConnection)
      → Returns (λ e. Keeps admin e.1) (fill_character_set env order db admin)
  unfolding fill_character_set failed_with with_status with_message
  fill_character_set-Returns db admin = Returns-bind _ _ (caught-Total _) (elim [
    | panic ↦ λ _. Returns-pure _ (refl, refl, refl)
    | done (err e) ↦ λ _. Returns-pure _ (refl, refl, refl)
    | done (ok c) ↦ λ _. fill_collation-Returns db _
  ])

  inspect-Returns :
      (admin : AdminConnection) → Returns (λ e. Keeps admin e.1) (inspect env order admin)
  unfolding inspect failed_with with_status with_message
  inspect-Returns admin = Returns-bind _ _ (caught-Total _) (elim [
    | panic ↦ λ _. Returns-pure _ (refl, refl, refl)
    | done (err e) ↦ λ _. Returns-pure _ (refl, refl, refl)
    | done (ok d) ↦ λ _. fill_character_set-Returns d admin
  ])

  resume_log : (o : Outcome (Option Error)) (w : World) → (resume env order o w).1.log ≡ w.log
  unfolding resume
  resume_log panic w = refl
  resume_log (done e) w = refl

  -- Once the resource is read, the last call of the reconciliation saves its status, whatever fails
  -- and also where the code panics; what is saved has the time of this reconciliation, and the
  -- metadata and the spec that were read.
  pub reconcile-Saves :
      (name : NamespacedName) (admin : AdminConnection) (w : World)
      → env.get_admin w.log name ≡ ok admin
      → (before : Log) × (final : AdminConnection) × ((reconcile env order name w).1.log
          ≡ before ++ update_admin_status final ∷ [])
        × (final.status.sync_time ≡ env.now (w.log ++ get_admin name (ok admin) ∷ []))
        × (final.spec ≡ admin.spec)
        × (final.meta ≡ admin.meta)
  unfolding reconcile found synced call look note with_status
  reconcile-Saves name admin w h =
      let v : World = record w { log = w.log ++ get_admin name (ok admin) ∷ [] } in
      let timed = with_status (record (admin.status) { sync_time = env.now v.log }) admin in
      let (ending, e, (t, s, m)) = (inspect-Returns timed).at v in
      rw h ((inspect env order timed v).1.log, ending.1, rw e (resume_log ending.0 _), t, s, m)
