-- ===== src/DeepCopy/Examples.antt =====
-- A deep copy of an `AdminConnection`.
use mysql_dba_operator.Base.{
  ℕ, Bytes, Bool, true, ◌≡◌, refl, Option, none, some, List, [], ◌∷◌, codes,
}
use mysql_dba_operator.DeepCopy.{Foreign, Pointer, Slice, plain, pointer, flat}
use mysql_dba_operator.DeepCopy.Common.{SecretKeySource, copy_secret_key_source}
use mysql_dba_operator.DeepCopy.AdminConnections.{
  copy_admin_connection, copy_admin_connection_spec, copy_admin_connection_status,
  deep_copy_admin_connection,
}
use mysql_dba_operator.DeepCopy.Objects.{
  RuntimeObject, deep_copy_object, deep_copy_object_admin_connection, object_addresses,
}
use mysql_dba_operator.DeepCopy.Deep.{Documented, plain-Deep, pointer-Deep, flat-Deep}
use mysql_dba_operator.DeepCopy.Deep.Objects.{IsCopy, deep_copy_object-IsCopy}

-- Metadata with finalizers, and a selector with its optional flag.
abbrev library : Foreign
library = record {
  TypeMeta = Bytes;
  ObjectMeta = Slice Bytes;
  ListMeta = Bytes;
  SecretKeySelector = Pointer Bool;
  Time = ℕ;
  object_meta = flat plain;
  list_meta = plain;
  secret_key_selector = pointer plain;
  time = plain;
}

library-Documented : Documented library
library-Documented = record {
  object_meta = flat-Deep plain (λ a. refl);
  list_meta = plain-Deep;
  secret_key_selector = pointer-Deep plain plain-Deep;
  time = plain-Deep;
}

abbrev user_source : SecretKeySource library
user_source = record { secret_key_ref = some (record { at = 3; value = true }) }

abbrev cached : RuntimeObject library
cached = RuntimeObject.an_admin_connection (record {
  at = 0;
  value = record {
    type_meta = codes "AdminConnection";
    object_meta = some (record { at = 1; value = codes "finalizer" ∷ [] });
    spec = record {
      host = codes "db";
      port = 3306;
      admin_user = some (record { at = 2; value = user_source });
      admin_password = none;
      allowed_namespaces = some (record { at = 4; value = codes "shop" ∷ [] });
    };
    status = record {
      sync_time = 5;
      message = [];
      control_database = [];
      character_set = [];
      collation = [];
      available_charsets = none;
    };
  };
})

deep_copy_object-IsCopy_example :
    (copy : RuntimeObject library) × (m : ℕ) × ((deep_copy_object library cached 5 ≡ (some copy, m))
      × IsCopy library cached 5 m copy)
deep_copy_object-IsCopy_example = deep_copy_object-IsCopy library library-Documented 5 cached

abbrev addresses_of : Option (RuntimeObject library) → List ℕ
addresses_of none = []
addresses_of (some object) = object_addresses library object

-- Its five addresses become five new ones.
cached_copied : addresses_of (deep_copy_object library cached 5).0 ≡ 5 ∷ 6 ∷ 7 ∷ 8 ∷ 9 ∷ []
unfolding deep_copy_object deep_copy_object_admin_connection deep_copy_admin_connection
    copy_admin_connection copy_admin_connection_spec copy_admin_connection_status
    copy_secret_key_source
cached_copied = refl
