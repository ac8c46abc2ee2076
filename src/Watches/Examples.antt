-- ===== src/Watches/Examples.antt =====
-- The theorem on requests with a dispatcher that does what is documented.
use mysql_dba_operator.Base.{
  true, ◌≡◌, ◌↔◌, ◌⊎◌, Option, none, some, List, [], ◌∷◌, ◌++◌, map, any, any_iff, Any,
  if◌then◌else◌, arith,
}
use mysql_dba_operator.Api.{NamespacedName, OwnerReference}
use mysql_dba_operator.World.{ok}
use mysql_dba_operator.Requests.{object_key}
use mysql_dba_operator.Watches.{
  same_kind, Object, kind_of, object_meta, Lister, Watch, Registration, database_registration,
  user_registration, admin_registration,
}
use mysql_dba_operator.Watches.Dispatched.{
  Runtime, Documented, Holds, ForDatabases, ForUsers, ForAdmins, dispatched_iff,
}
use mysql_dba_operator.Sample.{main_admin, orders, orders_key, clerk}

abbrev given : Option (List NamespacedName) → List NamespacedName
given none = []
given (some keys) = keys

abbrev watched : Object → List Watch → List NamespacedName
watched object [] = []
watched object (w ∷ watches) =
    let rest = watched object watches in
    if same_kind w.kind (kind_of object) then given (w.requests object) ++ rest else rest

abbrev owning : Object → List NamespacedName
owning object =
    map
      (λ (o : OwnerReference). record { namespace = (object_meta object).namespace; name = o.uid })
      (object_meta object).owner_references

abbrev enqueue : Registration → Object → List NamespacedName
enqueue r object =
    (if same_kind r.for_kind (kind_of object) then object_key (object_meta object) ∷ [] else [])
    ++ ((if any (λ k. same_kind k (kind_of object)) r.owned_kinds then owning object else [])
        ++ watched object r.watches)

abbrev dispatcher : Runtime
dispatcher = record { dispatch = enqueue; owners = λ kind object. owning object }

Any-append :
    (P : NamespacedName → Type 0) (xs ys : List NamespacedName)
    → Any P (xs ++ ys) ↔ (Any P xs ⊎ Any P ys)
Any-append P [] ys = ground arith
Any-append P (x ∷ xs) ys = ground (arith, Any-append P xs ys)

watched_iff :
    (object : Object) (key : NamespacedName) (watches : List Watch)
    → Any (λ k. k ≡ key) (watched object watches)
      ↔ Any
          (λ (w : Watch).
            (same_kind w.kind (kind_of object) ≡ true) × Holds (w.requests object) key)
          watches
watched_iff object key [] = (λ h. h, λ h. h)
watched_iff object key (w ∷ watches) = ground (
  arith,
  watched_iff object key watches,
  given_iff (w.requests object),
  Any-append (λ k. k ≡ key) (given (w.requests object)) (watched object watches),
)
  where
    given_iff :
        (keys : Option (List NamespacedName)) → Any (λ k. k ≡ key) (given keys) ↔ Holds keys key
    given_iff none = (λ h. h, λ h. h)
    given_iff (some keys) = (λ h. h, λ h. h)

dispatcher-Documented : Documented dispatcher
dispatcher-Documented = record {
  law = λ r object key.
      let own =
        if any (λ k. same_kind k (kind_of object)) r.owned_kinds then owning object else [] in
      let mine =
        if same_kind r.for_kind (kind_of object)
        then object_key (object_meta object) ∷ []
        else [] in
      ground (
        arith,
        watched_iff object key r.watches,
        any_iff (λ k. same_kind k (kind_of object)) (λ k. same_kind k (kind_of object) ≡ true)
            (λ k. (λ h. h, λ h. h)) r.owned_kinds,
        Any-append (λ k. k ≡ key) mine (own ++ watched object r.watches),
        Any-append (λ k. k ≡ key) own (watched object r.watches),
      );
}

abbrev listing : Lister
listing = record { databases = ok (orders ∷ []); users = λ namespace. ok (clerk ∷ []) }

dispatched_iff_example :
    (Any
        (λ k. k ≡ orders_key)
        (enqueue (database_registration listing) (Object.an_admin main_admin))
      ↔ ForDatabases listing dispatcher orders_key (Object.an_admin main_admin))
    × ((Any (λ k. k ≡ orders_key) (enqueue (user_registration listing) (Object.an_admin main_admin))
          ↔ ForUsers listing dispatcher orders_key (Object.an_admin main_admin))
        × (Any (λ k. k ≡ orders_key) (enqueue admin_registration (Object.an_admin main_admin))
            ↔ ForAdmins listing dispatcher orders_key (Object.an_admin main_admin)))
dispatched_iff_example =
    dispatched_iff listing dispatcher orders_key dispatcher-Documented (Object.an_admin main_admin)
