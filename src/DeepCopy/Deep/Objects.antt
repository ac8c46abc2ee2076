-- ===== src/DeepCopy/Deep/Objects.antt =====
-- `DeepCopyObject` makes deep copies.
use mysql_dba_operator.Base.{ℕ, suc, ◌≡◌, refl, some}
use mysql_dba_operator.DeepCopy.{Foreign}
use mysql_dba_operator.DeepCopy.AdminConnections.{
  deep_copy_admin_connection, deep_copy_admin_connection_list,
}
use mysql_dba_operator.DeepCopy.Databases.{deep_copy_database, deep_copy_database_list}
use mysql_dba_operator.DeepCopy.DatabaseUsers.{
  deep_copy_database_user, deep_copy_database_user_list,
}
use mysql_dba_operator.DeepCopy.Objects.{
  RuntimeObject, deep_copy_object, object_addresses, object_contents,
  deep_copy_object_admin_connection, deep_copy_object_admin_connection_list,
  deep_copy_object_database, deep_copy_object_database_list, deep_copy_object_database_user,
  deep_copy_object_database_user_list,
}
use mysql_dba_operator.DeepCopy.Deep.{Span, Documented, Span-new}
use mysql_dba_operator.DeepCopy.Deep.Structs.{
  admin_connection-Deep, admin_connection_list-Deep, database-Deep, database_list-Deep,
  database_user-Deep, database_user_list-Deep,
}

module _ (f : Foreign) where
  -- A copy of an object, made with addresses from `n` on.
  pub record IsCopy (object : RuntimeObject f) (n m : ℕ) (copy : RuntimeObject f) : Type 0 where
    pub same : object_contents f copy ≡ object_contents f object
    pub span : Span n m (object_addresses f copy)

  module _ (k : Documented f) (n : ℕ) where
    -- If the Kubernetes libraries copy their own types so, `DeepCopyObject` of any object but `nil`
    -- returns an object of the same type that says the same but for addresses, and every pointer and
    -- slice in it, itself included, is at an address that was not in use before. So no change through
    -- the copy is seen through the original, nor the other way round.
    pub deep_copy_object-IsCopy :
        (object : RuntimeObject f)
        → (copy : RuntimeObject f) × (m : ℕ) × ((deep_copy_object f object n ≡ (some copy, m))
            × IsCopy object n m copy)
    unfolding deep_copy_object deep_copy_object_admin_connection
        deep_copy_object_admin_connection_list deep_copy_object_database
        deep_copy_object_database_list deep_copy_object_database_user
        deep_copy_object_database_user_list deep_copy_admin_connection
        deep_copy_admin_connection_list deep_copy_database deep_copy_database_list
        deep_copy_database_user deep_copy_database_user_list
    deep_copy_object-IsCopy (RuntimeObject.an_admin_connection r) =
        let c = (admin_connection-Deep f k).at (suc n) r.value in
        (_, _, (refl, record { same = rw (c.same) refl; span = Span-new c.span }))
    deep_copy_object-IsCopy (RuntimeObject.an_admin_connection_list r) =
        let c = (admin_connection_list-Deep f k).at (suc n) r.value in
        (_, _, (refl, record { same = rw (c.same) refl; span = Span-new c.span }))
    deep_copy_object-IsCopy (RuntimeObject.a_database r) =
        let c = (database-Deep f k).at (suc n) r.value in
        (_, _, (refl, record { same = rw (c.same) refl; span = Span-new c.span }))
    deep_copy_object-IsCopy (RuntimeObject.a_database_list r) =
        let c = (database_list-Deep f k).at (suc n) r.value in
        (_, _, (refl, record { same = rw (c.same) refl; span = Span-new c.span }))
    deep_copy_object-IsCopy (RuntimeObject.a_database_user r) =
        let c = (database_user-Deep f k).at (suc n) r.value in
        (_, _, (refl, record { same = rw (c.same) refl; span = Span-new c.span }))
    deep_copy_object-IsCopy (RuntimeObject.a_database_user_list r) =
        let c = (database_user_list-Deep f k).at (suc n) r.value in
        (_, _, (refl, record { same = rw (c.same) refl; span = Span-new c.span }))
