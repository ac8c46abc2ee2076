-- ===== src/Start/Examples.antt =====
-- The start of the program, where the webhook cannot be set up.
use mysql_dba_operator.Base.{◌≡◌, ◌⊎◌, refl, true, Option, none, some, [], ◌∷◌, ◌++◌, codes}
use mysql_dba_operator.World.{Error, failure}
use mysql_dba_operator.Watches.{Kind}
use mysql_dba_operator.Start.{
  Flags, default_flags, options_of, group_version, admin_types, database_types, user_types, Request,
  End, Requests, ends, try, main, program,
}
use mysql_dba_operator.Start.Stops.{plan, failing, shares, Accepted, Failure, program-stops}

abbrev no_webhook : Requests → Request → Option Error
no_webhook asked (Request.set_up_webhook kind) = some (failure (codes "no certificate"))
no_webhook asked request = none

abbrev secure : Flags → Flags
secure flags = record flags { enable_leader_election = true }

no_webhook_stops : program no_webhook secure 1 [] ≡ (
  some (End.exited (failure (codes "no certificate"))),
  Request.add_client_types
      ∷ Request.add_types group_version (admin_types ++ (database_types ++ user_types))
      ∷ Request.get_config
      ∷ Request.new_manager (options_of (secure default_flags))
      ∷ shares 1 Kind.databases
      ∷ Request.set_up_webhook Kind.databases
      ∷ [],
)
unfolding program main try ends
no_webhook_stops = refl

program-stops_example :
    (Accepted no_webhook [] (plan (secure default_flags) 1)
      × (program no_webhook secure 1 [] ≡ (none, plan (secure default_flags) 1)))
    ⊎ ((failed : Failure no_webhook [] (plan (secure default_flags) 1)) × (program no_webhook secure
            1 []
          ≡ (some (failing failed.request failed.error), failed.before ++ failed.request ∷ [])))
program-stops_example = program-stops no_webhook secure 1
