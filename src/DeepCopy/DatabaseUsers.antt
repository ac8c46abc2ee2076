-- ===== src/DeepCopy/DatabaseUsers.antt =====
-- Deep copies of the types of api/v1alpha1/databaseuser_types.go.
use mysql_dba_operator.Base.{ℕ, Bytes, Bool, List, [], ◌++◌}
use mysql_dba_operator.DeepCopy.{
  Foreign, Pointer, Slice, Copy, pure, ◌>>=◌, Value, plain, deep_copy, pointer, slice, flat,
}
use mysql_dba_operator.DeepCopy.Common.{SecretKeySource, secret_key_source, AdminConnectionRef}

module _ (f : Foreign) where
  pub record DatabasePermission : Type 0 where
    pub name : Bytes
    pub grants : Slice Bytes

  unfoldable pub copy_database_permission : DatabasePermission → Copy DatabasePermission
  copy_database_permission input = do
    grants ← (flat plain).copy input.grants
    pure (record input { grants = grants })

  abbrev database_permission_addresses : DatabasePermission → List ℕ
  database_permission_addresses input = (flat plain).addresses input.grants

  abbrev database_permission_contents : DatabasePermission → DatabasePermission
  database_permission_contents input = record input { grants = (flat plain).contents input.grants }

  abbrev pub database_permission : Value DatabasePermission
  database_permission = record {
    copy = copy_database_permission;
    addresses = database_permission_addresses;
    contents = database_permission_contents;
  }

  pub deep_copy_database_permission : Pointer DatabasePermission → Copy (Pointer DatabasePermission)
  deep_copy_database_permission = deep_copy database_permission

  pub record Identification : Type 0 where
    pub auth_plugin : Bytes
    pub auth_string : Pointer (SecretKeySource f)
    pub clear_text : Bool

  unfoldable pub copy_identification : Identification → Copy Identification
  copy_identification input = do
    auth_string ← (pointer (secret_key_source f)).copy input.auth_string
    pure (record input { auth_string = auth_string })

  abbrev identification_addresses : Identification → List ℕ
  identification_addresses input = (pointer (secret_key_source f)).addresses input.auth_string

  abbrev identification_contents : Identification → Identification
  identification_contents input = record input {
    auth_string = (pointer (secret_key_source f)).contents input.auth_string;
  }

  abbrev pub identification : Value Identification
  identification = record {
    copy = copy_identification;
    addresses = identification_addresses;
    contents = identification_contents;
  }

  pub deep_copy_identification : Pointer Identification → Copy (Pointer Identification)
  deep_copy_identification = deep_copy identification

  pub record TlsOptions : Type 0 where
    pub required : Bool

  pub copy_tls_options : TlsOptions → Copy TlsOptions
  copy_tls_options input = pure input

  abbrev pub tls_options : Value TlsOptions
  tls_options = record {
    copy = copy_tls_options;
    addresses = λ input. [];
    contents = λ input. input;
  }

  pub deep_copy_tls_options : Pointer TlsOptions → Copy (Pointer TlsOptions)
  deep_copy_tls_options = deep_copy tls_options

  pub record DatabaseUserSpec : Type 0 where
    pub admin_connection : AdminConnectionRef f
    pub username : Bytes
    pub identification : Pointer Identification
    pub database_list : Slice DatabasePermission
    pub tls_options : TlsOptions

  unfoldable pub copy_database_user_spec : DatabaseUserSpec → Copy DatabaseUserSpec
  copy_database_user_spec input = do
    identification ← (pointer identification).copy input.identification
    database_list ← (slice database_permission).copy input.database_list
    pure (record input { identification = identification; database_list = database_list })

  abbrev database_user_spec_addresses : DatabaseUserSpec → List ℕ
  database_user_spec_addresses input =
      (pointer identification).addresses input.identification
      ++ (slice database_permission).addresses input.database_list

  abbrev database_user_spec_contents : DatabaseUserSpec → DatabaseUserSpec
  database_user_spec_contents input = record input {
    identification = (pointer identification).contents input.identification;
    database_list = (slice database_permission).contents input.database_list;
  }

  abbrev pub database_user_spec : Value DatabaseUserSpec
  database_user_spec = record {
    copy = copy_database_user_spec;
    addresses = database_user_spec_addresses;
    contents = database_user_spec_contents;
  }

  pub deep_copy_database_user_spec : Pointer DatabaseUserSpec → Copy (Pointer DatabaseUserSpec)
  deep_copy_database_user_spec = deep_copy database_user_spec

  pub record DatabaseUserStatus : Type 0 where
    pub creation_time : f.Time
    pub sync_time : f.Time
    pub message : Bytes
    pub username : Bytes
    pub database_list : Slice DatabasePermission
    pub grants : Slice Bytes
    pub identification : Pointer Identification
    pub identification_resource_version : Bytes
    pub tls_options : TlsOptions

  unfoldable pub copy_database_user_status : DatabaseUserStatus → Copy DatabaseUserStatus
  copy_database_user_status input = do
    creation_time ← f.time.copy input.creation_time
    sync_time ← f.time.copy input.sync_time
    database_list ← (slice database_permission).copy input.database_list
    grants ← (flat plain).copy input.grants
    identification ← (pointer identification).copy input.identification
    pure (record input {
      creation_time = creation_time;
      sync_time = sync_time;
      database_list = database_list;
      grants = grants;
      identification = identification;
    })

  abbrev database_user_status_addresses : DatabaseUserStatus → List ℕ
  database_user_status_addresses input =
      f.time.addresses input.creation_time
      ++ (f.time.addresses input.sync_time
          ++ ((slice database_permission).addresses input.database_list
              ++ ((flat plain).addresses input.grants
                  ++ (pointer identification).addresses input.identification)))

  abbrev database_user_status_contents : DatabaseUserStatus → DatabaseUserStatus
  database_user_status_contents input = record input {
    creation_time = f.time.contents input.creation_time;
    sync_time = f.time.contents input.sync_time;
    database_list = (slice database_permission).contents input.database_list;
    grants = (flat plain).contents input.grants;
    identification = (pointer identification).contents input.identification;
  }

  abbrev pub database_user_status : Value DatabaseUserStatus
  database_user_status = record {
    copy = copy_database_user_status;
    addresses = database_user_status_addresses;
    contents = database_user_status_contents;
  }

  pub deep_copy_database_user_status :
      Pointer DatabaseUserStatus → Copy (Pointer DatabaseUserStatus)
  deep_copy_database_user_status = deep_copy database_user_status

  pub record DatabaseUser : Type 0 where
    pub type_meta : f.TypeMeta
    pub object_meta : f.ObjectMeta
    pub spec : DatabaseUserSpec
    pub status : DatabaseUserStatus

  unfoldable pub copy_database_user : DatabaseUser → Copy DatabaseUser
  copy_database_user input = do
    object_meta ← f.object_meta.copy input.object_meta
    spec ← database_user_spec.copy input.spec
    status ← database_user_status.copy input.status
    pure (record input { object_meta = object_meta; spec = spec; status = status })

  abbrev database_user_addresses : DatabaseUser → List ℕ
  database_user_addresses input =
      f.object_meta.addresses input.object_meta
      ++ (database_user_spec.addresses input.spec ++ database_user_status.addresses input.status)

  abbrev database_user_contents : DatabaseUser → DatabaseUser
  database_user_contents input = record input {
    object_meta = f.object_meta.contents input.object_meta;
    spec = database_user_spec.contents input.spec;
    status = database_user_status.contents input.status;
  }

  abbrev pub database_user : Value DatabaseUser
  database_user = record {
    copy = copy_database_user;
    addresses = database_user_addresses;
    contents = database_user_contents;
  }

  unfoldable pub deep_copy_database_user : Pointer DatabaseUser → Copy (Pointer DatabaseUser)
  deep_copy_database_user = deep_copy database_user

  pub record DatabaseUserList : Type 0 where
    pub type_meta : f.TypeMeta
    pub list_meta : f.ListMeta
    pub items : Slice DatabaseUser

  unfoldable pub copy_database_user_list : DatabaseUserList → Copy DatabaseUserList
  copy_database_user_list input = do
    list_meta ← f.list_meta.copy input.list_meta
    items ← (slice database_user).copy input.items
    pure (record input { list_meta = list_meta; items = items })

  abbrev database_user_list_addresses : DatabaseUserList → List ℕ
  database_user_list_addresses input =
      f.list_meta.addresses input.list_meta ++ (slice database_user).addresses input.items

  abbrev database_user_list_contents : DatabaseUserList → DatabaseUserList
  database_user_list_contents input = record input {
    list_meta = f.list_meta.contents input.list_meta;
    items = (slice database_user).contents input.items;
  }

  abbrev pub database_user_list : Value DatabaseUserList
  database_user_list = record {
    copy = copy_database_user_list;
    addresses = database_user_list_addresses;
    contents = database_user_list_contents;
  }

  unfoldable pub deep_copy_database_user_list :
      Pointer DatabaseUserList → Copy (Pointer DatabaseUserList)
  deep_copy_database_user_list = deep_copy database_user_list
