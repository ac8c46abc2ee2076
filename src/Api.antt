-- ===== src/Api.antt =====
-- The resource types of api/v1alpha1 and the Kubernetes objects that they embed or refer to.
--
-- A nilable slice that is compared by `reflect.DeepEqual` is an `Option (List A)`, since a nil slice
-- and an empty one differ there; a slice that is only ranged over is a `List`. A time is a number,
-- 0 for the zero time. Type metadata and JSON tags are left out.
use mysql_dba_operator.Base.{ℕ, Bytes, Bool, Option, List}

-- The fields of `metav1.OwnerReference` that are read; `Controller` is a pointer.
pub record OwnerReference : Type 0 where
  pub uid : Bytes
  pub controller : Option Bool

-- The fields of `metav1.ObjectMeta` that are read or written.
pub record ObjectMeta : Type 0 where
  pub name : Bytes
  pub namespace : Bytes
  pub uid : Bytes
  pub resource_version : Bytes
  pub deletion_timestamp : Option ℕ
  pub finalizers : List Bytes
  pub owner_references : List OwnerReference

-- `types.NamespacedName`
pub record NamespacedName : Type 0 where
  pub namespace : Bytes
  pub name : Bytes

-- `v1.SecretKeySelector`
pub record SecretKeySelector : Type 0 where
  pub name : Bytes
  pub key : Bytes

pub record SecretKeySource : Type 0 where
  pub secret_key_ref : SecretKeySelector

-- `v1.Secret`, its data as a list of entries
pub record Secret : Type 0 where
  pub meta : ObjectMeta
  pub entries : List (Bytes × Bytes)

pub record AdminConnectionRef : Type 0 where
  pub namespace : Bytes
  pub name : Bytes

pub record Collation : Type 0 where
  pub name : Bytes
  pub default : Bool

pub record Charset : Type 0 where
  pub name : Bytes
  pub collations : List Collation

pub record AdminConnectionSpec : Type 0 where
  pub host : Bytes
  pub port : ℕ
  pub admin_user : Option SecretKeySource
  pub admin_password : Option SecretKeySource
  pub allowed_namespaces : List Bytes

pub record AdminConnectionStatus : Type 0 where
  pub sync_time : ℕ
  pub message : Bytes
  pub control_database : Bytes
  pub character_set : Bytes
  pub collation : Bytes
  pub available_charsets : List Charset

pub record AdminConnection : Type 0 where
  pub meta : ObjectMeta
  pub spec : AdminConnectionSpec
  pub status : AdminConnectionStatus

pub record DatabaseSpec : Type 0 where
  pub admin_connection : AdminConnectionRef
  pub name : Bytes
  pub character_set : Bytes
  pub collate : Bytes

pub record DatabaseStatus : Type 0 where
  pub creation_time : ℕ
  pub sync_time : ℕ
  pub character_set : Bytes
  pub collate : Bytes
  pub message : Bytes
  pub name : Bytes
  pub host : Bytes
  pub port : ℕ

pub record Database : Type 0 where
  pub meta : ObjectMeta
  pub spec : DatabaseSpec
  pub status : DatabaseStatus

pub record DatabasePermission : Type 0 where
  pub name : Bytes
  pub grants : Option (List Bytes)

pub record Identification : Type 0 where
  pub auth_plugin : Bytes
  pub auth_string : Option SecretKeySource
  pub clear_text : Bool

pub record TlsOptions : Type 0 where
  pub required : Bool

pub record DatabaseUserSpec : Type 0 where
  pub admin_connection : AdminConnectionRef
  pub username : Bytes
  pub identification : Option Identification
  pub database_list : Option (List DatabasePermission)
  pub tls_options : TlsOptions

pub record DatabaseUserStatus : Type 0 where
  pub creation_time : ℕ
  pub sync_time : ℕ
  pub message : Bytes
  pub username : Bytes
  pub database_list : Option (List DatabasePermission)
  pub grants : List Bytes
  pub identification : Option Identification
  pub identification_resource_version : Bytes
  pub tls_options : TlsOptions

pub record DatabaseUser : Type 0 where
  pub meta : ObjectMeta
  pub spec : DatabaseUserSpec
  pub status : DatabaseUserStatus
