-- ===== src/DeepCopy/Objects.antt =====
-- `DeepCopyObject` of the six types that are registered as objects.
use mysql_dba_operator.Base.{ℕ, Option, none, some, List}
use mysql_dba_operator.DeepCopy.{Foreign, Ref, Pointer, Copy, pure, ◌>>=◌, pointer}
use mysql_dba_operator.DeepCopy.AdminConnections.{
  AdminConnection, admin_connection, deep_copy_admin_connection, AdminConnectionList,
  admin_connection_list, deep_copy_admin_connection_list,
}
use mysql_dba_operator.DeepCopy.Databases.{
  Database, database, deep_copy_database, DatabaseList, database_list, deep_copy_database_list,
}
use mysql_dba_operator.DeepCopy.DatabaseUsers.{
  DatabaseUser, database_user, deep_copy_database_user, DatabaseUserList, database_user_list,
  deep_copy_database_user_list,
}

module _ (f : Foreign) where
  -- `runtime.Object`, a pointer of one of the types.
  pub data RuntimeObject : Type 0 where
    an_admin_connection : Ref (AdminConnection f) → RuntimeObject
    an_admin_connection_list : Ref (AdminConnectionList f) → RuntimeObject
    a_database : Ref (Database f) → RuntimeObject
    a_database_list : Ref (DatabaseList f) → RuntimeObject
    a_database_user : Ref (DatabaseUser f) → RuntimeObject
    a_database_user_list : Ref (DatabaseUserList f) → RuntimeObject

  -- The interface value of a pointer, `nil` for `nil`.
  abbrev object_of : {A : Type 0} → (Ref A → RuntimeObject) → Pointer A → Option RuntimeObject
  object_of make none = none
  object_of make (some c) = some (make c)

  unfoldable pub deep_copy_object_admin_connection :
      Pointer (AdminConnection f) → Copy (Option RuntimeObject)
  deep_copy_object_admin_connection input = do
    c ← deep_copy_admin_connection f input
    pure (object_of RuntimeObject.an_admin_connection c)

  unfoldable pub deep_copy_object_admin_connection_list :
      Pointer (AdminConnectionList f) → Copy (Option RuntimeObject)
  deep_copy_object_admin_connection_list input = do
    c ← deep_copy_admin_connection_list f input
    pure (object_of RuntimeObject.an_admin_connection_list c)

  unfoldable pub deep_copy_object_database : Pointer (Database f) → Copy (Option RuntimeObject)
  deep_copy_object_database input = do
    c ← deep_copy_database f input
    pure (object_of RuntimeObject.a_database c)

  unfoldable pub deep_copy_object_database_list :
      Pointer (DatabaseList f) → Copy (Option RuntimeObject)
  deep_copy_object_database_list input = do
    c ← deep_copy_database_list f input
    pure (object_of RuntimeObject.a_database_list c)

  unfoldable pub deep_copy_object_database_user :
      Pointer (DatabaseUser f) → Copy (Option RuntimeObject)
  deep_copy_object_database_user input = do
    c ← deep_copy_database_user f input
    pure (object_of RuntimeObject.a_database_user c)

  unfoldable pub deep_copy_object_database_user_list :
      Pointer (DatabaseUserList f) → Copy (Option RuntimeObject)
  deep_copy_object_database_user_list input = do
    c ← deep_copy_database_user_list f input
    pure (object_of RuntimeObject.a_database_user_list c)

  -- The method of the type that the object has.
  unfoldable pub deep_copy_object : RuntimeObject → Copy (Option RuntimeObject)
  deep_copy_object (RuntimeObject.an_admin_connection r) =
      deep_copy_object_admin_connection (some r)
  deep_copy_object (RuntimeObject.an_admin_connection_list r) =
      deep_copy_object_admin_connection_list (some r)
  deep_copy_object (RuntimeObject.a_database r) = deep_copy_object_database (some r)
  deep_copy_object (RuntimeObject.a_database_list r) = deep_copy_object_database_list (some r)
  deep_copy_object (RuntimeObject.a_database_user r) = deep_copy_object_database_user (some r)
  deep_copy_object (RuntimeObject.a_database_user_list r) =
      deep_copy_object_database_user_list (some r)

  -- The addresses that an object holds, its own first, and what it says.
  abbrev pub object_addresses : RuntimeObject → List ℕ
  object_addresses (RuntimeObject.an_admin_connection r) =
      (pointer (admin_connection f)).addresses (some r)
  object_addresses (RuntimeObject.an_admin_connection_list r) =
      (pointer (admin_connection_list f)).addresses (some r)
  object_addresses (RuntimeObject.a_database r) = (pointer (database f)).addresses (some r)
  object_addresses (RuntimeObject.a_database_list r) =
      (pointer (database_list f)).addresses (some r)
  object_addresses (RuntimeObject.a_database_user r) =
      (pointer (database_user f)).addresses (some r)
  object_addresses (RuntimeObject.a_database_user_list r) =
      (pointer (database_user_list f)).addresses (some r)

  abbrev pub object_contents : RuntimeObject → RuntimeObject
  object_contents (RuntimeObject.an_admin_connection r) =
      RuntimeObject.an_admin_connection
        (record { at = 0; value = (admin_connection f).contents r.value })
  object_contents (RuntimeObject.an_admin_connection_list r) =
      RuntimeObject.an_admin_connection_list
        (record { at = 0; value = (admin_connection_list f).contents r.value })
  object_contents (RuntimeObject.a_database r) =
      RuntimeObject.a_database (record { at = 0; value = (database f).contents r.value })
  object_contents (RuntimeObject.a_database_list r) =
      RuntimeObject.a_database_list (record { at = 0; value = (database_list f).contents r.value })
  object_contents (RuntimeObject.a_database_user r) =
      RuntimeObject.a_database_user (record { at = 0; value = (database_user f).contents r.value })
  object_contents (RuntimeObject.a_database_user_list r) =
      RuntimeObject.a_database_user_list
        (record { at = 0; value = (database_user_list f).contents r.value })
