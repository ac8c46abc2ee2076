-- ===== src/User/Controller/Progress/Examples.antt =====
-- The theorem on the rounds of reconciliation at a concrete input: an API server that keeps the
-- finalizers in a list and writes the controller into the secret.
use mysql_dba_operator.Base.{
  true, refl, inr, none, some, [], ◌∷◌, codes, any, ◌==◌, ==_refl, ==_differs,
}
use mysql_dba_operator.Api.{Secret, DatabaseUser}
use mysql_dba_operator.World.{Env, ok}
use mysql_dba_operator.Ownership.{named_user}
use mysql_dba_operator.User.Secrets.{owned_by}
use mysql_dba_operator.User.Controller.{user_finalizer}
use mysql_dba_operator.User.Controller.Progress.{Within, Takes, Serves}
use mysql_dba_operator.User.Controller.Progress.Rounds.{named-Within}
use mysql_dba_operator.Sample.{meta_of, clerk, sample}

abbrev adopted : DatabaseUser → Secret → Secret
adopted user secret = record secret {
  meta = record (secret.meta) {
    owner_references = record { uid = user.meta.uid; controller = some true } ∷ [];
  };
}

abbrev server : Env
server = record sample {
  first_user = λ log db name. none;
  contains_finalizer = λ meta name. any (λ f. f == name) meta.finalizers;
  add_finalizer = λ meta name. record meta { finalizers = name ∷ meta.finalizers };
  set_controller_reference = λ user secret. ok (adopted user secret);
}

server-Serves : Serves server
server-Serves = record {
  accepts_user = λ log user. refl;
  accepts_status = λ log user. refl;
  accepts_secret = λ log secret. refl;
  adds = λ meta. rw (==_refl user_finalizer) refl;
  keeps = λ meta. refl;
}

abbrev loose : Secret
loose = record { meta = meta_of (codes "shop") (codes "staff-secret"); entries = [] }

loose-Takes : Takes server loose clerk.meta.uid
unfolding owned_by
loose-Takes = record {
  foreign = refl;
  takes = λ user e. (adopted user loose, refl, rw (e, ==_refl clerk.meta.uid) refl);
}

-- A new resource: no name, no finalizer, and its secret is nobody's.
abbrev newcomer : DatabaseUser
newcomer = record clerk { status = record (clerk.status) { username = [] } }

named-Within_example : Within server 9 3 (record { secret = some loose; user = newcomer })
unfolding named_user ◌==◌ codes
named-Within_example =
    named-Within server 9 server-Serves (some loose) newcomer
      (inr (==_differs (codes "agent") [] refl, λ log. refl)) (inr (loose, refl, loose-Takes))
