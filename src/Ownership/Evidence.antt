-- ===== src/Ownership/Evidence.antt =====
-- What the log shows when an ownership test passes: that nothing of the name exists, or that the row
-- of the control database for the object's UID names the object and what it manages.
use mysql_dba_operator.Base.{
  Bytes, true, false, ◌≡◌, refl, sym, ◌∙◌, append-nil, Option, none, List, [], ◌∷◌, ◌++◌,
  append_assoc, arith, Bool-cases, Option-cases, inl, inr, ◌==◌, ==_iff, ◌≢◌, ◌⊎◌, subst,
}
use mysql_dba_operator.Api.{ObjectMeta, Database, DatabaseUser}
use mysql_dba_operator.Orm.{Handle, ManagedDatabase, ManagedUser, DatabaseSchema, MySqlUser}
use mysql_dba_operator.World.{
  Env, World, Log, first_schema, first_user, find_managed_database, find_managed_user,
}
use mysql_dba_operator.World.Exec.{done, call}
use mysql_dba_operator.World.Traces.{Extends}
use mysql_dba_operator.Ownership.{
  named_schema, named_user, no_database, no_user, found_or, database_matches, user_differs,
  claimed_names, user_exists, database_mine, names_mine, user_mine,
}

-- The row names the database and the object.
pub record Records (managed : ManagedDatabase) (name : Bytes) (meta : ObjectMeta) : Type 0 where
  pub same_database : managed.database_name ≡ name
  pub same_name : managed.name ≡ meta.name
  pub same_namespace : managed.namespace ≡ meta.namespace

pub database_matches-Records :
    (managed : ManagedDatabase) (database : Database)
    → database_matches managed database ≡ true
    → Records managed database.spec.name database.meta
unfolding database_matches
database_matches-Records managed database h = ground (
  arith,
  ==_iff managed.database_name database.spec.name,
  ==_iff managed.name database.meta.name,
  ==_iff managed.namespace database.meta.namespace,
)

pub Records-database_matches :
    (managed : ManagedDatabase) (database : Database)
    → Records managed database.spec.name database.meta
    → database_matches managed database ≡ true
unfolding database_matches
Records-database_matches managed database r = ground (
  arith,
  r.same_database,
  r.same_name,
  r.same_namespace,
  ==_iff managed.database_name database.spec.name,
  ==_iff managed.name database.meta.name,
  ==_iff managed.namespace database.meta.namespace,
)

-- For the database `name` and the object with the metadata `meta`.
pub data OwnsDatabase (db : Handle) (name : Bytes) (meta : ObjectMeta) : Log → Type 0 where
  vacant :
      (reply : Option DatabaseSchema)
      → named_schema reply ≡ none
      → OwnsDatabase db name meta (first_schema db name reply ∷ [])
  recorded :
      (reply : Option DatabaseSchema) (row : Option ManagedDatabase)
      → Records (found_or no_database row) name meta
      → OwnsDatabase db name meta
          (first_schema db name reply ∷ find_managed_database db meta.uid row ∷ [])

module _ (env : Env) where
  pub database_mine-OwnsDatabase :
      (db : Handle) (database : Database) (w : World)
      → (database_mine env db database w).0 ≡ done true
      → Extends
          (OwnsDatabase db database.spec.name database.meta)
          w
          (database_mine env db database w).1
  unfolding database_mine call
  database_mine-OwnsDatabase db database w h =
      elim (Option-cases (named_schema (env.first_schema w.log db database.spec.name))) [
        | inl gone ↦ rw (gone, call) (record { events = _; split = refl; good = vacant _ gone })
        | inr (schema, there) ↦
            rw (there, call)
              (record {
                events = _;
                split = append_assoc w.log _ _;
                good = recorded _ _ (database_matches-Records _ database (ground (arith, there)));
              })
      ]

-- The row names the MySQL user and the object.
pub record RecordsUser (managed : ManagedUser) (name : Bytes) (user : DatabaseUser) : Type 0 where
  pub same_username : managed.username ≡ name
  pub same_name : managed.name ≡ user.meta.name
  pub same_namespace : managed.namespace ≡ user.meta.namespace

pub user_differs-RecordsUser :
    (managed : ManagedUser) (name : Bytes) (user : DatabaseUser)
    → user_differs managed name user ≡ false
    → RecordsUser managed name user
unfolding user_differs
user_differs-RecordsUser managed name user h = ground (
  arith,
  ==_iff managed.username name,
  ==_iff managed.name user.meta.name,
  ==_iff managed.namespace user.meta.namespace,
)

-- The calls of the loop over `names`, from the struct `managed`: each name has no user, or the
-- struct as the query left it records it.
pub data OwnsNames (db : Handle) (user : DatabaseUser)
    : ManagedUser → List Bytes → Log → Type 0 where
  all_checked : (managed : ManagedUser) → OwnsNames db user managed [] []
  vacant :
      (managed : ManagedUser) (name : Bytes) (reply : Option MySqlUser) {names : List Bytes}
      {log : Log}
      → named_user reply ≡ none
      → OwnsNames db user managed names log
      → OwnsNames db user managed (name ∷ names) (first_user db name reply ∷ log)
  recorded :
      (managed : ManagedUser) (name : Bytes) (reply : Option MySqlUser) (row : Option ManagedUser)
      {names : List Bytes} {log : Log}
      → RecordsUser (found_or managed row) name user
      → OwnsNames db user (found_or managed row) names log
      → OwnsNames db user managed
          (name ∷ names)
          (first_user db name reply ∷ find_managed_user db user.meta.uid row ∷ log)

-- The calls show it of every name that the user goes by: of the wanted name alone, where the present
-- one is the same or not set, and otherwise of the wanted name and of the present one.
pub data OwnsUser (db : Handle) (user : DatabaseUser) : Log → Type 0 where
  one_name :
      {log : Log}
      → (user.status.username ≡ user.spec.username) ⊎ (user.status.username ≡ [])
      → OwnsNames db user no_user (user.spec.username ∷ []) log
      → OwnsUser db user log
  two_names :
      {log : Log}
      → user.status.username ≢ user.spec.username
      → user.status.username ≢ []
      → OwnsNames db user no_user (user.spec.username ∷ user.status.username ∷ []) log
      → OwnsUser db user log

-- The names that the code looks up are those.
pub claimed_names-cases :
    (user : DatabaseUser)
    → ((user.status.username ≡ user.spec.username) ⊎ (user.status.username ≡ []))
        × (claimed_names user ≡ user.spec.username ∷ [])
      ⊎ (user.status.username ≢ user.spec.username)
        × (user.status.username ≢ [])
        × (claimed_names user ≡ user.spec.username ∷ user.status.username ∷ [])
unfolding claimed_names
claimed_names-cases user = elim (Bool-cases (user.spec.username == user.status.username)) [
  | inl same ↦
      inl (inl (sym ((==_iff user.spec.username user.status.username).0 same)), rw same refl)
  | inr other ↦ elim (Bool-cases (user.status.username == [])) [
    | inl unset ↦ inl (inr ((==_iff user.status.username []).0 unset), rw (other, unset) refl)
    | inr set ↦ inr (
      (λ e. ground (arith, ==_iff user.spec.username user.status.username, e)),
      (λ e. ground (arith, ==_iff user.status.username [], e)),
      rw (other, set) refl,
    )
  ]
]

module _ (env : Env) (db : Handle) (user : DatabaseUser) where
  names_mine-OwnsNames :
      (managed : ManagedUser) (names : List Bytes) (w : World)
      → (names_mine env db user managed names w).0 ≡ done true
      → Extends (OwnsNames db user managed names) w (names_mine env db user managed names w).1
  unfolding names_mine user_exists call
  names_mine-OwnsNames managed [] w h = record {
    events = [];
    split = sym (append-nil w.log);
    good = all_checked managed;
  }
  names_mine-OwnsNames managed (name ∷ names) w h =
      elim (Option-cases (named_user (env.first_user w.log db name))) [
        | inl gone ↦
            let ih = names_mine-OwnsNames managed names _ (rw (gone, names_mine) at h) in
            rw (gone, names_mine)
              (record {
                events = _;
                split = ih.split ∙ append_assoc w.log _ _;
                good = vacant managed name _ gone ih.good;
              })
        | inr (found, there) ↦
            let row : Option ManagedUser =
              env.find_managed_user
                (w.log ++ first_user db name (env.first_user w.log db name) ∷ []) db
                user.meta.uid in
            elim (Bool-cases (user_differs (found_or managed row) name user)) [
              | inl other ↦ cc (rw (there, names_mine, other) at h)
              | inr same ↦
                  let ih =
                    names_mine-OwnsNames (found_or managed row) names _
                      (rw (there, names_mine, same) at h) in
                  rw (there, names_mine, same)
                    (record {
                      events = _;
                      split = ih.split ∙ append_assoc (w.log ++ _) _ _ ∙ append_assoc w.log _ _;
                      good =
                          recorded managed name _ row (user_differs-RecordsUser _ name user same)
                            ih.good;
                    })
            ]
      ]

  pub user_mine-OwnsUser :
      (w : World)
      → (user_mine env db user w).0 ≡ done true
      → Extends (OwnsUser db user) w (user_mine env db user w).1
  unfolding user_mine
  user_mine-OwnsUser w h =
      let shown = names_mine-OwnsNames no_user (claimed_names user) w h in
      elim (claimed_names-cases user) [
        | inl (one, names) ↦ record {
          events = shown.events;
          split = shown.split;
          good =
              one_name one (subst (λ n. OwnsNames db user no_user n shown.events) names shown.good);
        }
        | inr (other, set, names) ↦ record {
          events = shown.events;
          split = shown.split;
          good =
              two_names other set
                (subst (λ n. OwnsNames db user no_user n shown.events) names shown.good);
        }
      ]
