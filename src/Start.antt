-- ===== src/Start.antt =====
-- The start of the program: `init` and `main` of main.go, with the registrations that api/v1alpha1 makes
-- (groupversion_info.go and the `init` of each types file). What the flag package, the API machinery and
-- the controller runtime do is a parameter.
pub mod Stops
pub mod Examples
use mysql_dba_operator.Base.{
  ℕ, Bytes, Bool, true, false, Option, none, some, List, [], ◌∷◌, ◌++◌, codes, if◌then◌else◌,
}
use mysql_dba_operator.World.{Error}
use mysql_dba_operator.Watches.{Kind}

-- `schema.GroupVersion`
pub record GroupVersion : Type 0 where
  pub group : Bytes
  pub version : Bytes

abbrev pub group_version : GroupVersion
group_version = record { group = codes "mysql.apps.cuppett.dev"; version = codes "v1alpha1" }

-- The types given to `SchemeBuilder.Register` by each file, which register when the package is loaded.
abbrev pub admin_types : List Bytes
admin_types = codes "AdminConnection" ∷ codes "AdminConnectionList" ∷ []

abbrev pub database_types : List Bytes
database_types = codes "Database" ∷ codes "DatabaseList" ∷ []

abbrev pub user_types : List Bytes
user_types = codes "DatabaseUser" ∷ codes "DatabaseUserList" ∷ []

-- The flags of the program itself.
pub record Flags : Type 0 where
  pub metrics_addr : Bytes
  pub secure_metrics : Bool
  pub probe_addr : Bytes
  pub enable_leader_election : Bool
  pub enable_http2 : Bool

abbrev pub default_flags : Flags
default_flags = record {
  metrics_addr = codes ":8080";
  secure_metrics = false;
  probe_addr = codes ":8081";
  enable_leader_election = false;
  enable_http2 = false;
}

-- `tls.Config`, of which the protocols are set.
pub record TlsConfig : Type 0 where
  pub next_protos : List Bytes

disable_http2 : Bool → TlsConfig → TlsConfig
disable_http2 enable config =
    if enable then config else record config { next_protos = codes "http/1.1" ∷ [] }

-- `ctrl.Options`, with those of the metrics and the webhook server.
pub record Options : Type 0 where
  pub metrics_bind_address : Bytes
  pub metrics_secure_serving : Bool
  pub metrics_tls_opts : List (TlsConfig → TlsConfig)
  pub webhook_tls_opts : List (TlsConfig → TlsConfig)
  pub health_probe_bind_address : Bytes
  pub leader_election : Bool
  pub leader_election_id : Bytes

pub options_of : Flags → Options
unfolding disable_http2
options_of flags = record {
  metrics_bind_address = flags.metrics_addr;
  metrics_secure_serving = flags.secure_metrics;
  metrics_tls_opts = disable_http2 flags.enable_http2 ∷ [];
  webhook_tls_opts = disable_http2 flags.enable_http2 ∷ [];
  health_probe_bind_address = flags.probe_addr;
  leader_election = flags.enable_leader_election;
  leader_election_id = codes "c5e62347.cuppett.dev";
}

-- A reconciler for a kind, with the address of the map that it is given as `Connections`.
pub record Reconciler : Type 0 where
  pub kind : Kind
  pub connections : ℕ

-- What the program asks for, one after the other.
pub data Request : Type 0 where
  add_client_types : Request
  add_types : GroupVersion → List Bytes → Request
  -- `ctrl.GetConfigOrDie`, which exits where there is no configuration
  get_config : Request
  new_manager : Options → Request
  set_up_controller : Reconciler → Request
  set_up_webhook : Kind → Request
  add_healthz_check : Bytes → Request
  add_readyz_check : Bytes → Request
  start_manager : Request

-- How the program ends early: `os.Exit(1)`, or a panic of `utilruntime.Must`.
pub data End : Type 0 where
  exited : Error → End
  panicked : Error → End

abbrev pub Requests : Type 0
Requests = List Request

-- What was asked so far, and `none` if the program goes on.
abbrev pub Run : Type 0
Run = Requests → Option End × Requests

abbrev next_if : Option End → Run → Run
next_if none rest asked = rest asked
next_if (some end) rest asked = (some end, asked)

infixl 5 ◌>>◌
abbrev pub ◌>>◌ : Run → Run → Run
m >> rest = λ asked. next_if (m asked).0 rest (m asked).1

-- The replies, `nil` or an error, to a request after those before it.
module _ (reply : Requests → Request → Option Error) where
  ends : (Error → End) → Option Error → Option End
  ends failed none = none
  ends failed (some e) = some (failed e)

  -- A request; on an error the program ends.
  pub try : (Error → End) → Request → Run
  unfolding ends
  try failed request asked = (ends failed (reply asked request), asked ++ request ∷ [])

  -- `connections` is the address of the map that `make` returned.
  pub main : Flags → ℕ → Run
  main flags connections = do
    try End.exited Request.get_config
    try End.exited (Request.new_manager (options_of flags))
    try End.exited
        (Request.set_up_controller (record { kind = Kind.databases; connections = connections }))
    try End.exited (Request.set_up_webhook Kind.databases)
    try End.exited
        (Request.set_up_controller (record { kind = Kind.users; connections = connections }))
    try End.exited
        (Request.set_up_controller (record { kind = Kind.admins; connections = connections }))
    try End.exited (Request.add_healthz_check (codes "health"))
    try End.exited (Request.add_readyz_check (codes "check"))
    try End.exited Request.start_manager

  -- `init`, and then `main` with what `flag.Parse` makes of the defaults.
  pub program : (Flags → Flags) → ℕ → Run
  program parse connections = do
    try End.panicked Request.add_client_types
    try End.panicked
        (Request.add_types group_version (admin_types ++ (database_types ++ user_types)))
    main (parse default_flags) connections
