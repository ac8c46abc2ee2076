-- ===== src/User/Examples.antt =====
-- The theorems on the reconciler of `DatabaseUser` resources at concrete inputs.
use mysql_dba_operator.Base.{
  subst, ◌≢◌, Option, true, false, ◌≡◌, refl, none, some, [], ◌∷◌, ◌++◌, codes, ◌==◌, ==_differs,
}
use mysql_dba_operator.Api.{SecretKeySource, Secret, Identification, DatabaseUser}
use mysql_dba_operator.World.{Error, Env, ok, err, not_found, get_user, get_admin, first_user}
use mysql_dba_operator.World.Exec.{done, panic}
use mysql_dba_operator.Ownership.{named_user, user_mine}
use mysql_dba_operator.Connection.Access.{key_of}
use mysql_dba_operator.User.Details.{user_detail_string}
use mysql_dba_operator.User.Details.Authentication.{user_detail_string_no_secret}
use mysql_dba_operator.User.Lifecycle.{managed_of}
use mysql_dba_operator.User.Lifecycle.Rows.{managed_of_disowns}
use mysql_dba_operator.User.Controller.{provision, reconcile}
use mysql_dba_operator.User.Secrets.Returns.{SaysController, Benign}
use mysql_dba_operator.User.Controller.Returns.{reconcile_returns}
use mysql_dba_operator.User.Controller.Panics.{
  provision_no_password, reconcile_deleted_user_unconnected,
}
use mysql_dba_operator.Sample.{clerk, passwordless, server_user, orders_key, sample, adrift, start}

user_detail_string_no_secret_example :
    user_detail_string sample none true clerk start ≡ (panic, start)
user_detail_string_no_secret_example =
    user_detail_string_no_secret sample clerk passwordless true start refl refl

abbrev renaming : Env
renaming = record sample { find_managed_user = λ log db uid. some (managed_of clerk) }

managed_of_disowns_example : (user_mine renaming 9 clerk start).0 ≡ done false
unfolding codes ◌==◌ named_user
managed_of_disowns_example =
    managed_of_disowns renaming 9 clerk server_user start
      (==_differs (codes "agent") (codes "clerk") refl) (==_differs (codes "clerk") [] refl)
      (λ log. refl) (λ log. refl)

abbrev userless : Env
userless = record sample { first_user = λ log db name. none }

provision_no_password_example :
    provision userless none 9 clerk start
    ≡ (panic, record start { log = start.log ++ (first_user 9 (codes "clerk") none ∷ []) })
unfolding named_user
provision_no_password_example =
    provision_no_password userless 9 clerk passwordless start refl refl refl

abbrev doomed : DatabaseUser
doomed = record clerk { meta = record (clerk.meta) { deletion_timestamp = some 3 } }

abbrev doomed_env : Env
doomed_env = record adrift { get_user = λ log name. ok doomed }

reconcile_deleted_user_unconnected_example :
    ((reconcile doomed_env orders_key start).0 ≡ panic)
    × ((reconcile doomed_env orders_key start).1.log
        ≡ start.log
          ++ (get_user orders_key (ok doomed)
              ∷ get_admin
                  (key_of doomed.meta.namespace doomed.spec.admin_connection)
                  (err not_found)
              ∷ []))
reconcile_deleted_user_unconnected_example =
    reconcile_deleted_user_unconnected doomed_env orders_key doomed 3 start refl refl refl
      (λ log. refl)

-- A user with the name that it shall have.
abbrev settled : DatabaseUser
settled = record clerk { spec = record (clerk.spec) { username = codes "clerk" } }

-- The same with a password, in a secret that is not there yet.
abbrev lettered : DatabaseUser
lettered = record settled {
  spec = record (settled.spec) {
    identification = some (record {
      auth_plugin = [];
      auth_string =
          some (record { secret_key_ref = record { name = codes "letter"; key = codes "word" } });
      clear_text = false;
    });
  };
}

abbrev lettered_env : Env
lettered_env = record sample { get_user = λ log name. ok lettered }

lettered_env-Benign : Benign lettered_env
lettered_env-Benign = record {
  read_says = λ log name s e. cc;
  created_says = λ log wanted s bare e. subst SaysController (ok_injective e) (rw (bare) tt);
  draws = λ log at bound positive. positive;
}
  where
    ok_injective : {a b : Secret} → ok a ≡ ok b → a ≡ b
    ok_injective e = cc

reconcile_returns_example :
    (result : Option Error) × ((reconcile lettered_env orders_key start).0 ≡ done result)
reconcile_returns_example =
    reconcile_returns lettered_env lettered_env-Benign lettered
      (λ i e. subst (λ (j : Identification). j.auth_string ≢ none) (some_injective e) some_ne_none)
      orders_key start refl refl
  where
    some_injective : {a b : Identification} → some a ≡ some b → a ≡ b
    some_injective e = cc

    some_ne_none : {a : SecretKeySource} → some a ≢ none
    some_ne_none e = cc
