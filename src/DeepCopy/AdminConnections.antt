-- ===== src/DeepCopy/AdminConnections.antt =====
-- Deep copies of the types of api/v1alpha1/adminconnection_types.go.
use mysql_dba_operator.Base.{ℕ, Bytes, Bool, List, [], ◌++◌}
use mysql_dba_operator.DeepCopy.{
  Foreign, Pointer, Slice, Copy, pure, ◌>>=◌, Value, plain, deep_copy, pointer, slice, flat,
}
use mysql_dba_operator.DeepCopy.Common.{SecretKeySource, secret_key_source}

module _ (f : Foreign) where
  pub record AdminConnectionSpec : Type 0 where
    pub host : Bytes
    pub port : ℕ
    pub admin_user : Pointer (SecretKeySource f)
    pub admin_password : Pointer (SecretKeySource f)
    pub allowed_namespaces : Slice Bytes

  unfoldable pub copy_admin_connection_spec : AdminConnectionSpec → Copy AdminConnectionSpec
  copy_admin_connection_spec input = do
    admin_user ← (pointer (secret_key_source f)).copy input.admin_user
    admin_password ← (pointer (secret_key_source f)).copy input.admin_password
    allowed_namespaces ← (flat plain).copy input.allowed_namespaces
    pure (record input {
      admin_user = admin_user;
      admin_password = admin_password;
      allowed_namespaces = allowed_namespaces;
    })

  abbrev admin_connection_spec_addresses : AdminConnectionSpec → List ℕ
  admin_connection_spec_addresses input =
      (pointer (secret_key_source f)).addresses input.admin_user
      ++ ((pointer (secret_key_source f)).addresses input.admin_password
          ++ (flat plain).addresses input.allowed_namespaces)

  abbrev admin_connection_spec_contents : AdminConnectionSpec → AdminConnectionSpec
  admin_connection_spec_contents input = record input {
    admin_user = (pointer (secret_key_source f)).contents input.admin_user;
    admin_password = (pointer (secret_key_source f)).contents input.admin_password;
    allowed_namespaces = (flat plain).contents input.allowed_namespaces;
  }

  abbrev pub admin_connection_spec : Value AdminConnectionSpec
  admin_connection_spec = record {
    copy = copy_admin_connection_spec;
    addresses = admin_connection_spec_addresses;
    contents = admin_connection_spec_contents;
  }

  pub deep_copy_admin_connection_spec :
      Pointer AdminConnectionSpec → Copy (Pointer AdminConnectionSpec)
  deep_copy_admin_connection_spec = deep_copy admin_connection_spec

  pub record Collation : Type 0 where
    pub name : Bytes
    pub default : Bool

  pub copy_collation : Collation → Copy Collation
  copy_collation input = pure input

  abbrev pub collation : Value Collation
  collation = record { copy = copy_collation; addresses = λ input. []; contents = λ input. input }

  pub deep_copy_collation : Pointer Collation → Copy (Pointer Collation)
  deep_copy_collation = deep_copy collation

  pub record Charset : Type 0 where
    pub name : Bytes
    pub collations : Slice Collation

  unfoldable pub copy_charset : Charset → Copy Charset
  copy_charset input = do
    collations ← (flat collation).copy input.collations
    pure (record input { collations = collations })

  abbrev charset_addresses : Charset → List ℕ
  charset_addresses input = (flat collation).addresses input.collations

  abbrev charset_contents : Charset → Charset
  charset_contents input = record input { collations = (flat collation).contents input.collations }

  abbrev pub charset : Value Charset
  charset = record {
    copy = copy_charset;
    addresses = charset_addresses;
    contents = charset_contents;
  }

  pub deep_copy_charset : Pointer Charset → Copy (Pointer Charset)
  deep_copy_charset = deep_copy charset

  pub record AdminConnectionStatus : Type 0 where
    pub sync_time : f.Time
    pub message : Bytes
    pub control_database : Bytes
    pub character_set : Bytes
    pub collation : Bytes
    pub available_charsets : Slice Charset

  unfoldable pub copy_admin_connection_status : AdminConnectionStatus → Copy AdminConnectionStatus
  copy_admin_connection_status input = do
    sync_time ← f.time.copy input.sync_time
    available_charsets ← (slice charset).copy input.available_charsets
    pure (record input { sync_time = sync_time; available_charsets = available_charsets })

  abbrev admin_connection_status_addresses : AdminConnectionStatus → List ℕ
  admin_connection_status_addresses input =
      f.time.addresses input.sync_time ++ (slice charset).addresses input.available_charsets

  abbrev admin_connection_status_contents : AdminConnectionStatus → AdminConnectionStatus
  admin_connection_status_contents input = record input {
    sync_time = f.time.contents input.sync_time;
    available_charsets = (slice charset).contents input.available_charsets;
  }

  abbrev pub admin_connection_status : Value AdminConnectionStatus
  admin_connection_status = record {
    copy = copy_admin_connection_status;
    addresses = admin_connection_status_addresses;
    contents = admin_connection_status_contents;
  }

  pub deep_copy_admin_connection_status :
      Pointer AdminConnectionStatus → Copy (Pointer AdminConnectionStatus)
  deep_copy_admin_connection_status = deep_copy admin_connection_status

  pub record AdminConnection : Type 0 where
    pub type_meta : f.TypeMeta
    pub object_meta : f.ObjectMeta
    pub spec : AdminConnectionSpec
    pub status : AdminConnectionStatus

  unfoldable pub copy_admin_connection : AdminConnection → Copy AdminConnection
  copy_admin_connection input = do
    object_meta ← f.object_meta.copy input.object_meta
    spec ← admin_connection_spec.copy input.spec
    status ← admin_connection_status.copy input.status
    pure (record input { object_meta = object_meta; spec = spec; status = status })

  abbrev admin_connection_addresses : AdminConnection → List ℕ
  admin_connection_addresses input =
      f.object_meta.addresses input.object_meta
      ++ (admin_connection_spec.addresses input.spec
          ++ admin_connection_status.addresses input.status)

  abbrev admin_connection_contents : AdminConnection → AdminConnection
  admin_connection_contents input = record input {
    object_meta = f.object_meta.contents input.object_meta;
    spec = admin_connection_spec.contents input.spec;
    status = admin_connection_status.contents input.status;
  }

  abbrev pub admin_connection : Value AdminConnection
  admin_connection = record {
    copy = copy_admin_connection;
    addresses = admin_connection_addresses;
    contents = admin_connection_contents;
  }

  unfoldable pub deep_copy_admin_connection :
      Pointer AdminConnection → Copy (Pointer AdminConnection)
  deep_copy_admin_connection = deep_copy admin_connection

  pub record AdminConnectionList : Type 0 where
    pub type_meta : f.TypeMeta
    pub list_meta : f.ListMeta
    pub items : Slice AdminConnection

  unfoldable pub copy_admin_connection_list : AdminConnectionList → Copy AdminConnectionList
  copy_admin_connection_list input = do
    list_meta ← f.list_meta.copy input.list_meta
    items ← (slice admin_connection).copy input.items
    pure (record input { list_meta = list_meta; items = items })

  abbrev admin_connection_list_addresses : AdminConnectionList → List ℕ
  admin_connection_list_addresses input =
      f.list_meta.addresses input.list_meta ++ (slice admin_connection).addresses input.items

  abbrev admin_connection_list_contents : AdminConnectionList → AdminConnectionList
  admin_connection_list_contents input = record input {
    list_meta = f.list_meta.contents input.list_meta;
    items = (slice admin_connection).contents input.items;
  }

  abbrev pub admin_connection_list : Value AdminConnectionList
  admin_connection_list = record {
    copy = copy_admin_connection_list;
    addresses = admin_connection_list_addresses;
    contents = admin_connection_list_contents;
  }

  unfoldable pub deep_copy_admin_connection_list :
      Pointer AdminConnectionList → Copy (Pointer AdminConnectionList)
  deep_copy_admin_connection_list = deep_copy admin_connection_list
