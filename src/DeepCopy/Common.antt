-- ===== src/DeepCopy/Common.antt =====
-- Deep copies of the types of api/v1alpha1/common.go.
use mysql_dba_operator.Base.{ℕ, Bytes, List, []}
use mysql_dba_operator.DeepCopy.{Foreign, Pointer, Copy, pure, ◌>>=◌, Value, deep_copy}

module _ (f : Foreign) where
  pub record SecretKeySource : Type 0 where
    pub secret_key_ref : f.SecretKeySelector

  unfoldable pub copy_secret_key_source : SecretKeySource → Copy SecretKeySource
  copy_secret_key_source input = do
    secret_key_ref ← f.secret_key_selector.copy input.secret_key_ref
    pure (record input { secret_key_ref = secret_key_ref })

  abbrev secret_key_source_addresses : SecretKeySource → List ℕ
  secret_key_source_addresses input = f.secret_key_selector.addresses input.secret_key_ref

  abbrev secret_key_source_contents : SecretKeySource → SecretKeySource
  secret_key_source_contents input = record input {
    secret_key_ref = f.secret_key_selector.contents input.secret_key_ref;
  }

  abbrev pub secret_key_source : Value SecretKeySource
  secret_key_source = record {
    copy = copy_secret_key_source;
    addresses = secret_key_source_addresses;
    contents = secret_key_source_contents;
  }

  pub deep_copy_secret_key_source : Pointer SecretKeySource → Copy (Pointer SecretKeySource)
  deep_copy_secret_key_source = deep_copy secret_key_source

  pub record AdminConnectionRef : Type 0 where
    pub namespace : Bytes
    pub name : Bytes

  pub copy_admin_connection_ref : AdminConnectionRef → Copy AdminConnectionRef
  copy_admin_connection_ref input = pure input

  abbrev pub admin_connection_ref : Value AdminConnectionRef
  admin_connection_ref = record {
    copy = copy_admin_connection_ref;
    addresses = λ input. [];
    contents = λ input. input;
  }

  pub deep_copy_admin_connection_ref :
      Pointer AdminConnectionRef → Copy (Pointer AdminConnectionRef)
  deep_copy_admin_connection_ref = deep_copy admin_connection_ref
