-- ===== src/DeepCopy/Databases.antt =====
-- Deep copies of the types of api/v1alpha1/database_types.go.
use mysql_dba_operator.Base.{ℕ, Bytes, List, [], ◌++◌}
use mysql_dba_operator.DeepCopy.{
  Foreign, Pointer, Slice, Copy, pure, ◌>>=◌, Value, deep_copy, slice,
}
use mysql_dba_operator.DeepCopy.Common.{AdminConnectionRef}

module _ (f : Foreign) where
  pub record DatabaseSpec : Type 0 where
    pub admin_connection : AdminConnectionRef f
    pub name : Bytes
    pub character_set : Bytes
    pub collate : Bytes

  pub copy_database_spec : DatabaseSpec → Copy DatabaseSpec
  copy_database_spec input = pure input

  abbrev pub database_spec : Value DatabaseSpec
  database_spec = record {
    copy = copy_database_spec;
    addresses = λ input. [];
    contents = λ input. input;
  }

  pub deep_copy_database_spec : Pointer DatabaseSpec → Copy (Pointer DatabaseSpec)
  deep_copy_database_spec = deep_copy database_spec

  pub record DatabaseStatus : Type 0 where
    pub creation_time : f.Time
    pub sync_time : f.Time
    pub character_set : Bytes
    pub collate : Bytes
    pub message : Bytes
    pub name : Bytes
    pub host : Bytes
    pub port : ℕ

  unfoldable pub copy_database_status : DatabaseStatus → Copy DatabaseStatus
  copy_database_status input = do
    creation_time ← f.time.copy input.creation_time
    sync_time ← f.time.copy input.sync_time
    pure (record input { creation_time = creation_time; sync_time = sync_time })

  abbrev database_status_addresses : DatabaseStatus → List ℕ
  database_status_addresses input =
      f.time.addresses input.creation_time ++ f.time.addresses input.sync_time

  abbrev database_status_contents : DatabaseStatus → DatabaseStatus
  database_status_contents input = record input {
    creation_time = f.time.contents input.creation_time;
    sync_time = f.time.contents input.sync_time;
  }

  abbrev pub database_status : Value DatabaseStatus
  database_status = record {
    copy = copy_database_status;
    addresses = database_status_addresses;
    contents = database_status_contents;
  }

  pub deep_copy_database_status : Pointer DatabaseStatus → Copy (Pointer DatabaseStatus)
  deep_copy_database_status = deep_copy database_status

  pub record Database : Type 0 where
    pub type_meta : f.TypeMeta
    pub object_meta : f.ObjectMeta
    pub spec : DatabaseSpec
    pub status : DatabaseStatus

  unfoldable pub copy_database : Database → Copy Database
  copy_database input = do
    object_meta ← f.object_meta.copy input.object_meta
    status ← database_status.copy input.status
    pure (record input { object_meta = object_meta; status = status })

  abbrev database_addresses : Database → List ℕ
  database_addresses input =
      f.object_meta.addresses input.object_meta ++ database_status.addresses input.status

  abbrev database_contents : Database → Database
  database_contents input = record input {
    object_meta = f.object_meta.contents input.object_meta;
    status = database_status.contents input.status;
  }

  abbrev pub database : Value Database
  database = record {
    copy = copy_database;
    addresses = database_addresses;
    contents = database_contents;
  }

  unfoldable pub deep_copy_database : Pointer Database → Copy (Pointer Database)
  deep_copy_database = deep_copy database

  pub record DatabaseList : Type 0 where
    pub type_meta : f.TypeMeta
    pub list_meta : f.ListMeta
    pub items : Slice Database

  unfoldable pub copy_database_list : DatabaseList → Copy DatabaseList
  copy_database_list input = do
    list_meta ← f.list_meta.copy input.list_meta
    items ← (slice database).copy input.items
    pure (record input { list_meta = list_meta; items = items })

  abbrev database_list_addresses : DatabaseList → List ℕ
  database_list_addresses input =
      f.list_meta.addresses input.list_meta ++ (slice database).addresses input.items

  abbrev database_list_contents : DatabaseList → DatabaseList
  database_list_contents input = record input {
    list_meta = f.list_meta.contents input.list_meta;
    items = (slice database).contents input.items;
  }

  abbrev pub database_list : Value DatabaseList
  database_list = record {
    copy = copy_database_list;
    addresses = database_list_addresses;
    contents = database_list_contents;
  }

  unfoldable pub deep_copy_database_list : Pointer DatabaseList → Copy (Pointer DatabaseList)
  deep_copy_database_list = deep_copy database_list
