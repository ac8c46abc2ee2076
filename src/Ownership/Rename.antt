-- ===== src/Ownership/Rename.antt =====
-- `UserMine` while the wanted name of a user differs from its present one.
use mysql_dba_operator.Base.{
  Bytes, true, false, ◌≡◌, ◌≢◌, refl, sym, ◌∙◌, Option, none, some, [], ◌∷◌, arith, Bool-cases,
  Option-cases, inl, inr, ==_iff,
}
use mysql_dba_operator.Api.{DatabaseUser}
use mysql_dba_operator.Orm.{Handle, ManagedUser, MySqlUser}
use mysql_dba_operator.World.{Env, World, Log}
use mysql_dba_operator.World.Exec.{done, call}
use mysql_dba_operator.Ownership.{
  named_user, no_user, found_or, user_differs, claimed_names, user_mine,
}
use mysql_dba_operator.Ownership.Evidence.{user_differs-RecordsUser}

module _ (env : Env) (db : Handle) (user : DatabaseUser) where
  claimed_two :
      user.spec.username ≢ user.status.username
      → user.status.username ≢ []
      → claimed_names user ≡ user.spec.username ∷ user.status.username ∷ []
  unfolding claimed_names
  claimed_two renamed set =
      ground (arith, ==_iff user.spec.username user.status.username, ==_iff user.status.username [])

  user_differs_of_name :
      (managed : ManagedUser) (name : Bytes)
      → managed.username ≢ name
      → user_differs managed name user ≡ true
  unfolding user_differs
  user_differs_of_name managed name h = ground (arith, ==_iff managed.username name)

  found_differs :
      (before managed : ManagedUser) (name : Bytes)
      → managed.username ≢ name
      → user_differs (found_or before (some managed)) name user ≡ true
  found_differs before managed name h = user_differs_of_name managed name h

  found_or_twice :
      (managed : ManagedUser) (row : Option ManagedUser)
      → found_or (found_or managed row) row ≡ found_or managed row
  found_or_twice managed none = refl
  found_or_twice managed (some r) = refl

  -- One struct cannot match two names.
  differs_from_one :
      (managed : ManagedUser)
      → user.spec.username ≢ user.status.username
      → user_differs managed user.spec.username user ≡ false
      → user_differs managed user.status.username user ≡ true
  differs_from_one managed renamed same =
      let records = user_differs-RecordsUser managed user.spec.username user same in
      user_differs_of_name managed user.status.username
        (λ e. renamed (sym records.same_username ∙ e))

  -- A struct of another name does not own the user of the present name: if the wanted name differs
  -- from the present one, which is set and has a user, and the row for the UID has a name that is
  -- not the present one, then `UserMine` returns false.
  pub user_mine_foreign_row :
      (managed : ManagedUser) (present : MySqlUser)
      → user.spec.username ≢ user.status.username
      → user.status.username ≢ []
      → managed.username ≢ user.status.username
      → ((log : Log) → env.find_managed_user log db user.meta.uid ≡ some managed)
      → ((log : Log) → named_user (env.first_user log db user.status.username) ≡ some present)
      → (w : World) → (user_mine env db user w).0 ≡ done false
  unfolding user_mine call
  user_mine_foreign_row managed present renamed set foreign rows there w =
      rw (claimed_two renamed set)
        (elim (Option-cases (named_user (env.first_user w.log db user.spec.username))) [
          | inl gone ↦
              simp (gone, there, rows, found_differs _ managed user.status.username foreign)
          | inr (u, taken) ↦ elim (Bool-cases (user_differs managed user.spec.username user)) [
            | inl other ↦ simp (taken, rows, other)
            | inr same ↦
                simp
                  (taken, there, rows, same, found_differs _ managed user.status.username foreign)
          ]
        ])

  -- A rename is never owned while users of both names exist: if the wanted name differs from the
  -- present one, which is set, if the server has a user of either name, and if the row for the UID
  -- is the same at each reading, then `UserMine` returns false.
  pub user_mine_two_names :
      (row : Option ManagedUser) (taken present : MySqlUser)
      → user.spec.username ≢ user.status.username
      → user.status.username ≢ []
      → ((log : Log) → env.find_managed_user log db user.meta.uid ≡ row)
      → ((log : Log) → named_user (env.first_user log db user.spec.username) ≡ some taken)
      → ((log : Log) → named_user (env.first_user log db user.status.username) ≡ some present)
      → (w : World) → (user_mine env db user w).0 ≡ done false
  unfolding user_mine call
  user_mine_two_names row taken present renamed set rows both both' w =
      rw (claimed_two renamed set)
        (elim (Bool-cases (user_differs (found_or no_user row) user.spec.username user)) [
          | inl other ↦ simp (both, rows, other)
          | inr same ↦
              simp (both, both', rows, same, found_or_twice, differs_from_one _ renamed same)
        ])
