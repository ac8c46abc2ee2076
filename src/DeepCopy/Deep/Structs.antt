-- ===== src/DeepCopy/Deep/Structs.antt =====
-- The copy of each type is deep.
use mysql_dba_operator.Base.{refl}
use mysql_dba_operator.DeepCopy.{Foreign, plain, pointer, slice, flat}
use mysql_dba_operator.DeepCopy.Deep.{
  Deep, Documented, Span-append, pointer-Deep, slice-Deep, flat-Deep,
}
use mysql_dba_operator.DeepCopy.Common.{secret_key_source, copy_secret_key_source}
use mysql_dba_operator.DeepCopy.AdminConnections.{
  admin_connection_spec, copy_admin_connection_spec, collation, charset, copy_charset,
  admin_connection_status, copy_admin_connection_status, admin_connection, copy_admin_connection,
  admin_connection_list, copy_admin_connection_list,
}
use mysql_dba_operator.DeepCopy.Databases.{
  database_status, copy_database_status, database, copy_database, database_list, copy_database_list,
}
use mysql_dba_operator.DeepCopy.DatabaseUsers.{
  database_permission, copy_database_permission, identification, copy_identification,
  database_user_spec, copy_database_user_spec, database_user_status, copy_database_user_status,
  database_user, copy_database_user, database_user_list, copy_database_user_list,
}

module _ (f : Foreign) (k : Documented f) where
  pub secret_key_source-Deep : Deep (secret_key_source f)
  unfolding copy_secret_key_source
  secret_key_source-Deep = record {
    at = λ n a.
        let c0 = k.secret_key_selector.at n a.secret_key_ref in
        record { same = rw (c0.same) refl; span = c0.span };
  }

  pub admin_connection_spec-Deep : Deep (admin_connection_spec f)
  unfolding copy_admin_connection_spec
  admin_connection_spec-Deep = record {
    at = λ n a.
        let c0 = (pointer-Deep (secret_key_source f) secret_key_source-Deep).at n a.admin_user in
        let c1 =
          (pointer-Deep (secret_key_source f) secret_key_source-Deep).at
            ((pointer (secret_key_source f)).copy a.admin_user n).1 a.admin_password in
        let c2 =
          (flat-Deep plain (λ a. refl)).at
            ((pointer (secret_key_source f)).copy a.admin_password
              ((pointer (secret_key_source f)).copy a.admin_user n).1).1
            a.allowed_namespaces in
        record {
          same = rw (c0.same, c1.same, c2.same) refl;
          span = Span-append c0.span (Span-append c1.span c2.span);
        };
  }

  pub charset-Deep : Deep (charset f)
  unfolding copy_charset
  charset-Deep = record {
    at = λ n a.
        let c0 = (flat-Deep (collation f) (λ a. refl)).at n a.collations in
        record { same = rw (c0.same) refl; span = c0.span };
  }

  pub admin_connection_status-Deep : Deep (admin_connection_status f)
  unfolding copy_admin_connection_status
  admin_connection_status-Deep = record {
    at = λ n a.
        let c0 = k.time.at n a.sync_time in
        let c1 =
          (slice-Deep (charset f) charset-Deep).at (f.time.copy a.sync_time n).1
            a.available_charsets in
        record { same = rw (c0.same, c1.same) refl; span = Span-append c0.span c1.span };
  }

  pub admin_connection-Deep : Deep (admin_connection f)
  unfolding copy_admin_connection
  admin_connection-Deep = record {
    at = λ n a.
        let c0 = k.object_meta.at n a.object_meta in
        let c1 = admin_connection_spec-Deep.at (f.object_meta.copy a.object_meta n).1 a.spec in
        let c2 =
          admin_connection_status-Deep.at
            ((admin_connection_spec f).copy a.spec (f.object_meta.copy a.object_meta n).1).1
            a.status in
        record {
          same = rw (c0.same, c1.same, c2.same) refl;
          span = Span-append c0.span (Span-append c1.span c2.span);
        };
  }

  pub admin_connection_list-Deep : Deep (admin_connection_list f)
  unfolding copy_admin_connection_list
  admin_connection_list-Deep = record {
    at = λ n a.
        let c0 = k.list_meta.at n a.list_meta in
        let c1 =
          (slice-Deep (admin_connection f) admin_connection-Deep).at
            (f.list_meta.copy a.list_meta n).1 a.items in
        record { same = rw (c0.same, c1.same) refl; span = Span-append c0.span c1.span };
  }

  pub database_status-Deep : Deep (database_status f)
  unfolding copy_database_status
  database_status-Deep = record {
    at = λ n a.
        let c0 = k.time.at n a.creation_time in
        let c1 = k.time.at (f.time.copy a.creation_time n).1 a.sync_time in
        record { same = rw (c0.same, c1.same) refl; span = Span-append c0.span c1.span };
  }

  pub database-Deep : Deep (database f)
  unfolding copy_database
  database-Deep = record {
    at = λ n a.
        let c0 = k.object_meta.at n a.object_meta in
        let c1 = database_status-Deep.at (f.object_meta.copy a.object_meta n).1 a.status in
        record { same = rw (c0.same, c1.same) refl; span = Span-append c0.span c1.span };
  }

  pub database_list-Deep : Deep (database_list f)
  unfolding copy_database_list
  database_list-Deep = record {
    at = λ n a.
        let c0 = k.list_meta.at n a.list_meta in
        let c1 =
          (slice-Deep (database f) database-Deep).at (f.list_meta.copy a.list_meta n).1 a.items in
        record { same = rw (c0.same, c1.same) refl; span = Span-append c0.span c1.span };
  }

  pub database_permission-Deep : Deep (database_permission f)
  unfolding copy_database_permission
  database_permission-Deep = record {
    at = λ n a.
        let c0 = (flat-Deep plain (λ a. refl)).at n a.grants in
        record { same = rw (c0.same) refl; span = c0.span };
  }

  pub identification-Deep : Deep (identification f)
  unfolding copy_identification
  identification-Deep = record {
    at = λ n a.
        let c0 = (pointer-Deep (secret_key_source f) secret_key_source-Deep).at n a.auth_string in
        record { same = rw (c0.same) refl; span = c0.span };
  }

  pub database_user_spec-Deep : Deep (database_user_spec f)
  unfolding copy_database_user_spec
  database_user_spec-Deep = record {
    at = λ n a.
        let c0 = (pointer-Deep (identification f) identification-Deep).at n a.identification in
        let c1 =
          (slice-Deep (database_permission f) database_permission-Deep).at
            ((pointer (identification f)).copy a.identification n).1 a.database_list in
        record { same = rw (c0.same, c1.same) refl; span = Span-append c0.span c1.span };
  }

  pub database_user_status-Deep : Deep (database_user_status f)
  unfolding copy_database_user_status
  database_user_status-Deep = record {
    at = λ n a.
        let c0 = k.time.at n a.creation_time in
        let c1 = k.time.at (f.time.copy a.creation_time n).1 a.sync_time in
        let c2 =
          (slice-Deep (database_permission f) database_permission-Deep).at
            (f.time.copy a.sync_time (f.time.copy a.creation_time n).1).1 a.database_list in
        let c3 =
          (flat-Deep plain (λ a. refl)).at
            ((slice (database_permission f)).copy a.database_list
              (f.time.copy a.sync_time (f.time.copy a.creation_time n).1).1).1
            a.grants in
        let c4 =
          (pointer-Deep (identification f) identification-Deep).at
            ((flat plain).copy a.grants
              ((slice (database_permission f)).copy a.database_list
                (f.time.copy a.sync_time (f.time.copy a.creation_time n).1).1).1).1
            a.identification in
        record {
          same = rw (c0.same, c1.same, c2.same, c3.same, c4.same) refl;
          span =
              Span-append c0.span
                (Span-append c1.span (Span-append c2.span (Span-append c3.span c4.span)));
        };
  }

  pub database_user-Deep : Deep (database_user f)
  unfolding copy_database_user
  database_user-Deep = record {
    at = λ n a.
        let c0 = k.object_meta.at n a.object_meta in
        let c1 = database_user_spec-Deep.at (f.object_meta.copy a.object_meta n).1 a.spec in
        let c2 =
          database_user_status-Deep.at
            ((database_user_spec f).copy a.spec (f.object_meta.copy a.object_meta n).1).1
            a.status in
        record {
          same = rw (c0.same, c1.same, c2.same) refl;
          span = Span-append c0.span (Span-append c1.span c2.span);
        };
  }

  pub database_user_list-Deep : Deep (database_user_list f)
  unfolding copy_database_user_list
  database_user_list-Deep = record {
    at = λ n a.
        let c0 = k.list_meta.at n a.list_meta in
        let c1 =
          (slice-Deep (database_user f) database_user-Deep).at (f.list_meta.copy a.list_meta n).1
            a.items in
        record { same = rw (c0.same, c1.same) refl; span = Span-append c0.span c1.span };
  }
