-- ===== src/DatabaseController/Termination.antt =====
-- When `Reconcile` of controllers/database_controller.go returns and when it panics.
use mysql_dba_operator.Base.{
  ℕ, true, ◌≡◌, ◌≢◌, ◌↔◌, refl, sym, ◌∙◌, ap, subst, Option, none, some, arith,
}
use mysql_dba_operator.Api.{NamespacedName, Database}
use mysql_dba_operator.World.{Env, Error, Result, not_found, failure, World, ok, err, get_database}
use mysql_dba_operator.World.Exec.{Outcome, done, panic, Exec, call}
use mysql_dba_operator.World.Total.{
  Total, Returns-pure, Returns-if, Returns-bind, Total-call, Total-note, Total-ne_panic,
}
use mysql_dba_operator.Connection.Returns.{run-Total}
use mysql_dba_operator.Acquire.{Connected, acquire}
use mysql_dba_operator.Acquire.Returns.{acquire-Total}
use mysql_dba_operator.DatabaseController.{
  db_finalizer, finalize_database, released, deleted, unavailable, present, handle, reconcile,
}
use mysql_dba_operator.DatabaseController.Sync.{
  database_mine-Total, save_status-Total, provision-Returns,
}

done-ne_panic : {A : Type 0} {a : A} → done a ≢ panic
done-ne_panic e = cc

err-ne_ok : {e : Error} {d : Database} → err e ≢ ok d
err-ne_ok e = cc

ok_injective : {d e : Database} → ok d ≡ ok e → d ≡ e
ok_injective h = cc

module _ (env : Env) where
  module _ (database : Database) where
    finalize_database-Total : (c : Connected) → Total (finalize_database env c.db database)
    unfolding finalize_database
    finalize_database-Total c =
        Returns-bind _ _ (run-Total env c.db _)
          (λ _ _. Returns-bind _ _ (Total-note _) (λ _ _. Returns-pure _ tt))

    released-Total : (c : Connected) → Total (released env (some c) database)
    unfolding released
    released-Total c =
        Returns-bind _ _ (database_mine-Total env c.db database)
          (λ mine _. Returns-if mine _ _ (finalize_database-Total c) (Returns-pure _ tt))

    deleted-Total : (c : Connected) → Total (deleted env (some c) database)
    unfolding deleted
    deleted-Total c =
        Returns-if _ _ _
          (Returns-bind _ _ (released-Total c)
            (elim [ some e ↦ λ _. Returns-pure _ tt | none ↦ λ _. Total-call _ _ ]))
          (Returns-pure _ tt)

    present-Total :
        (connection : Option Connected) (e : Option Error)
        → Total (present env connection e database)
    unfolding present unavailable
    present-Total none e = Returns-bind _ _ (save_status-Total env _) (λ _ _. Returns-pure _ tt)
    present-Total (some c) e =
        Returns-if _ _ _
          (record {
            at = λ w.
                let (a, done_a, _) = (provision-Returns env c database).at w in (a, done_a, tt);
          })
          (Total-call _ _)

    -- The resource is marked deleted and has the finalizer, and there is no connection.
    pub record Unreleasable (w : World) : Type 0 where
      pub marked : database.meta.deletion_timestamp ≢ none
      pub held : env.contains_finalizer database.meta db_finalizer ≡ true
      pub failed : Option Error
      pub unconnected :
          (acquire env database.meta.namespace database.spec.admin_connection w).0
          ≡ done (none, failed)

    deleted-panics :
        (w : World)
        → env.contains_finalizer database.meta db_finalizer ≡ true
        → (deleted env none database w).0 ≡ panic
    unfolding deleted released
    deleted-panics w h = rw (h) refl

    -- The branch for a marked instance panics in one case.
    deleted-panic :
        (connection : Option Connected) (w : World)
        → (deleted env connection database w).0 ≡ panic
        → (connection ≡ none) × (env.contains_finalizer database.meta db_finalizer ≡ true)
    unfolding deleted
    deleted-panic (some c) w h = absurd (Total-ne_panic _ (deleted-Total c) w h)
    deleted-panic none w h = ground (arith)

    -- What `handle` does with the connection.
    branch : Option ℕ → Option Connected → Option Error → Exec (Option Error)
    branch time connection e = elim time [
      | some _ ↦ deleted env connection database
      | none ↦ present env connection e database
    ]

    branch-panic :
        (time : Option ℕ) (connection : Option Connected) (e : Option Error) (w : World)
        → (branch time connection e w).0 ≡ panic
        → (time ≢ none)
          × (connection ≡ none)
          × (env.contains_finalizer database.meta db_finalizer ≡ true)
    unfolding branch
    branch-panic (some time) connection e w h =
        let (lost, held) = deleted-panic connection w h in ((λ x. cc), lost, held)
    branch-panic none connection e w h = absurd (Total-ne_panic _ (present-Total connection e) w h)

    branch-panics :
        (time : Option ℕ) (e : Option Error) (w : World)
        → time ≢ none
        → env.contains_finalizer database.meta db_finalizer ≡ true
        → (branch time none e w).0 ≡ panic
    unfolding branch
    branch-panics (some time) e w marked held = deleted-panics w held
    branch-panics none e w marked held = absurd (marked refl)

    abbrev got : World → Outcome (Option Connected × Option Error)
    got w = (acquire env database.meta.namespace database.spec.admin_connection w).0

    -- `handle` after `acquire`.
    handle-branch :
        (connection : Option Connected) (e : Option Error) (w : World)
        → got w ≡ done (connection, e)
        → (handle env database w).0
          ≡ (branch database.meta.deletion_timestamp connection e
              (acquire env database.meta.namespace database.spec.admin_connection w).1).0
    unfolding handle branch
    handle-branch connection e w h = rw (h) refl

    handle-panic : (w : World) → ((handle env database w).0 ≡ panic) ↔ Unreleasable w
    handle-panic w = (forth, back)
      where
        forth : (handle env database w).0 ≡ panic → Unreleasable w
        forth h =
            let ((connection, e), got_e, _) =
              (acquire-Total env database.meta.namespace database.spec.admin_connection).at w in
            let (marked, lost, held) =
              branch-panic _ connection e _ (sym (handle-branch connection e w got_e) ∙ h) in
            record {
              marked = marked;
              held = held;
              failed = e;
              unconnected = got_e ∙ ap (λ (c : Option Connected). done (c, e)) lost;
            }

        back : Unreleasable w → (handle env database w).0 ≡ panic
        back u =
            handle-branch none u.failed w u.unconnected ∙ branch-panics _ u.failed _ u.marked u.held

  -- The world after the read of the resource.
  abbrev pub after_read : NamespacedName → World → World
  after_read request w = (call (λ log. env.get_database log request) (get_database request) w).1

  -- The run panics if and only if the resource was read and is marked deleted, it has the finalizer,
  -- and `acquire` gave no connection: a log line then reads through a nil pointer. In all other cases it
  -- returns, whatever the environment replies.
  pub reconcile-panic :
      (request : NamespacedName) (w : World)
      → ((reconcile env request w).0 ≡ panic) ↔ (
          (d : Database) × (env.get_database w.log request ≡ ok d)
          × Unreleasable d (after_read request w))
  unfolding reconcile call
  reconcile-panic request w = go (env.get_database w.log request) refl
    where
      go :
          (read : Result Database)
          → env.get_database w.log request ≡ read
          → ((reconcile env request w).0 ≡ panic) ↔ (
              (d : Database) × (env.get_database w.log request ≡ ok d)
              × Unreleasable d (after_read request w))
      go (ok d) h = rw (h) (
        (λ p. (d, refl, (handle-panic d _).0 p)),
        (λ (d', e, u).
            (handle-panic d _).1 (subst (λ x. Unreleasable x _) (sym (ok_injective e)) u)),
      )
      go (err not_found) h =
          rw (h) ((λ p. absurd (done-ne_panic p)), (λ (d, e, u). absurd (err-ne_ok e)))
      go (err (failure f)) h =
          rw (h) ((λ p. absurd (done-ne_panic p)), (λ (d, e, u). absurd (err-ne_ok e)))
