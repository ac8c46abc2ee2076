-- ===== src/Start/Stops.antt =====
-- Where the start of the program ends.
use mysql_dba_operator.Base.{
  ℕ, ◌≡◌, ◌⊎◌, inl, inr, Option-cases, refl, sym, subst, ◌∙◌, ap, Option, none, some, [], ◌∷◌, ◌++◌,
  append_assoc, append-nil, codes, arith,
}
use mysql_dba_operator.World.{Error}
use mysql_dba_operator.Watches.{Kind}
use mysql_dba_operator.Start.{
  Flags, default_flags, options_of, group_version, admin_types, database_types, user_types, Request,
  End, Requests, Run, ◌>>◌, ends, try, main, program,
}

-- A controller with the shared map.
abbrev pub shares : ℕ → Kind → Request
shares connections kind =
    Request.set_up_controller (record { kind = kind; connections = connections })

-- The requests of a start in which nothing fails.
pub plan : Flags → ℕ → Requests
plan flags connections =
    Request.add_client_types
    ∷ Request.add_types group_version (admin_types ++ (database_types ++ user_types))
    ∷ Request.get_config
    ∷ Request.new_manager (options_of flags)
    ∷ shares connections Kind.databases
    ∷ Request.set_up_webhook Kind.databases
    ∷ shares connections Kind.users
    ∷ shares connections Kind.admins
    ∷ Request.add_healthz_check (codes "health")
    ∷ Request.add_readyz_check (codes "check")
    ∷ Request.start_manager
    ∷ []

-- A registration of types panics, the rest exits.
abbrev pub failing : Request → Error → End
failing Request.add_client_types e = End.panicked e
failing (Request.add_types version types) e = End.panicked e
failing request e = End.exited e

module _ (reply : Requests → Request → Option Error) where
  -- Each request has the reply `nil`.
  abbrev pub Accepted : Requests → Requests → Type 0
  Accepted asked [] = Unit {0}
  Accepted asked (request ∷ rest) =
      (reply asked request ≡ none) × Accepted (asked ++ request ∷ []) rest

  -- Requests in turn.
  in_turn : Requests → Run
  in_turn [] asked = (none, asked)
  in_turn (request ∷ rest) asked = (try reply (failing request) request >> in_turn rest) asked

  in_turn_all :
      (requests asked : Requests)
      → Accepted asked requests
      → in_turn requests asked ≡ (none, asked ++ requests)
  unfolding in_turn try ends
  in_turn_all [] asked h = rw (append-nil asked) refl
  in_turn_all (request ∷ rest) asked (passed, h) =
      rw (passed)
        (in_turn_all rest (asked ++ request ∷ []) h ∙ ap (λ l. (none, l)) (append_assoc asked _ _))

  in_turn_stops :
      (before : Requests) (request : Request) (after asked : Requests) (e : Error)
      → Accepted asked before
      → reply (asked ++ before) request ≡ some e
      → in_turn (before ++ request ∷ after) asked
        ≡ (some (failing request e), asked ++ (before ++ request ∷ []))
  unfolding in_turn try ends
  in_turn_stops [] request after asked e h failed =
      let e' : reply asked request ≡ some e =
        subst (λ l. reply l request ≡ some e) (append-nil asked) failed in
      rw e' refl
  in_turn_stops (first ∷ before) request after asked e (passed, h) failed =
      let failed' : reply ((asked ++ first ∷ []) ++ before) request ≡ some e =
        subst (λ l. reply l request ≡ some e) (sym (append_assoc asked (first ∷ []) before))
          failed in
      rw (passed) (
        in_turn_stops before request after (asked ++ first ∷ []) e h failed'
        ∙ ap (λ l. (some (failing request e), l)) (append_assoc asked _ _))

  program-in_turn :
      (parse : Flags → Flags) (connections : ℕ)
      → program reply parse connections [] ≡ in_turn (plan (parse default_flags) connections) []
  unfolding program main in_turn plan try ends
  program-in_turn parse connections = ground arith

  -- One of the requests is the first to fail.
  pub record Failure (asked requests : Requests) : Type 0 where
    pub before : Requests
    pub request : Request
    pub after : Requests
    pub error : Error
    pub split : requests ≡ before ++ request ∷ after
    pub accepted : Accepted asked before
    pub failed : reply (asked ++ before) request ≡ some error

  later-Failure :
      (asked : Requests) (first : Request) (requests : Requests)
      → reply asked first ≡ none
      → Failure (asked ++ first ∷ []) requests
      → Failure asked (first ∷ requests)
  later-Failure asked first requests passed f = record {
    before = first ∷ f.before;
    request = f.request;
    after = f.after;
    error = f.error;
    split = ap (λ l. first ∷ l) f.split;
    accepted = (passed, f.accepted);
    failed =
        subst (λ l. reply l f.request ≡ some f.error) (append_assoc asked (first ∷ []) f.before)
          f.failed;
  }

  first-Failure : (requests asked : Requests) → Accepted asked requests ⊎ Failure asked requests
  first-Failure [] asked = inl tt
  first-Failure (request ∷ rest) asked = elim (Option-cases (reply asked request)) [
    | inl passed ↦ elim (first-Failure rest (asked ++ request ∷ [])) [
      | inl accepted ↦ inl (passed, accepted)
      | inr failure ↦ inr (later-Failure asked request rest passed failure)
    ]
    | inr (e, failed) ↦ inr (record {
      before = [];
      request = request;
      after = rest;
      error = e;
      split = refl;
      accepted = tt;
      failed = subst (λ l. reply l request ≡ some e) (sym (append-nil asked)) failed;
    })
  ]

  -- The program asks, in this order, for the two registrations of types, the configuration of the
  -- client, the manager with the options that the flags give, the database controller and its webhook,
  -- the user and the connection controller, the two checks, and the run of the manager; the three
  -- controllers get the same map. Either all replies are `nil` and nothing else is asked; or it asks
  -- for those up to the first that fails, and for none after it, and ends with that error: a failed
  -- registration of types panics, and anything else exits.
  pub program-stops :
      (parse : Flags → Flags) (connections : ℕ)
      → (Accepted [] (plan (parse default_flags) connections)
          × (program reply parse connections [] ≡ (none, plan (parse default_flags) connections)))
        ⊎ ((failure : Failure [] (plan (parse default_flags) connections)) × (program reply parse
                connections []
              ≡ (
                some (failing failure.request failure.error),
                failure.before ++ failure.request ∷ [],
              )))
  program-stops parse connections =
      elim (first-Failure (plan (parse default_flags) connections) []) [
        | inl accepted ↦ inl (
          accepted,
          program-in_turn parse connections
              ∙ in_turn_all (plan (parse default_flags) connections) [] accepted,
        )
        | inr f ↦ inr (
          f,
          program-in_turn parse connections
              ∙ rw (f.split)
                  (in_turn_stops f.before f.request f.after [] f.error f.accepted f.failed),
        )
      ]
