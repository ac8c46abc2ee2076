-- ===== src/Webhook/Accepted.antt =====
-- What the validation of `Database` resources lets through.
use mysql_dba_operator.Base.{
  ℕ, Bytes, Bool, true, false, not, ◌≤◌, ◌∷◌, ◌∙◌, ◌=?◌, all, any, All, codes, if◌then◌else◌, ◌≡◌,
  ◌≢◌, ◌↔◌, ◌⊎◌, inl, inr, refl, sym, ap, subst, Option, none, some, List, [], ◌==◌, ==_iff,
  Bool-cases, arith,
}
use mysql_dba_operator.Api.{NamespacedName, AdminConnection, Database}
use mysql_dba_operator.World.{Env, World, Error, Result, ok, err}
use mysql_dba_operator.World.Exec.{Outcome, done, panic, Exec, pure, call}
use mysql_dba_operator.Webhook.{
  forbidden, name_matches, Verdict, or_default, check_combo, referred, looked_up,
  validate_charset_collation_combo, validate_create, validate_update, validate_delete, rejected,
}
use mysql_dba_operator.Webhook.Verdicts.{find_charset, or_empty, Has, check_charsets-Has}

-- It returns no error; there may be a warning.
abbrev pub Accepts : Exec Verdict → World → Type 0
Accepts m w = (warnings : List Bytes) × ((m w).0 ≡ done (warnings, none))

-- None of the characters that a name must not hold.
abbrev pub IsPlain : ℕ → Type 0
IsPlain c =
    (c ≢ b'\\')
    × (c ≢ b'/')
    × (c ≢ b'?')
    × (c ≢ b'%')
    × (c ≢ b'*')
    × (c ≢ b':')
    × (c ≢ b'|')
    × (c ≢ b'"')
    × (c ≢ b'<')
    × (c ≢ b'>')
    × (c ≢ b'.')

-- 1 to 64 characters, none of them forbidden.
abbrev pub IsName : (Bytes → ℕ) → Bytes → Type 0
IsName rune_count name = All IsPlain name × (1 ≤ rune_count name) × (rune_count name ≤ 64)

-- `chosen` is what is written, or the default where nothing is.
pub data Chosen (written default : Bytes) : Bytes → Type 0 where
  by_default : written ≡ [] → Chosen written default default
  as_written : written ≢ [] → Chosen written default written

-- The wanted collation, or else that of the server, is one of the wanted charset, or else of that of
-- the server.
abbrev pub Offered : Database → AdminConnection → Type 0
Offered database admin =
    (charset collation : Bytes) × Chosen database.spec.character_set admin.status.character_set
      charset
    × Chosen database.spec.collate admin.status.collation collation
    × Has collation (or_empty (find_charset charset admin.status.available_charsets))

Plain_iff : (c : ℕ) → (not (any (λ f. f =? c) forbidden) ≡ true) ↔ IsPlain c
unfolding codes
Plain_iff c = ground arith

name_matches_iff :
    (rune_count : Bytes → ℕ) (name : Bytes)
    → (name_matches rune_count name ≡ true) ↔ IsName rune_count name
unfolding name_matches
name_matches_iff rune_count name = ground (arith, plain name)
  where
    plain : (s : Bytes) → (all (λ c. not (any (λ f. f =? c) forbidden)) s ≡ true) ↔ All IsPlain s
    plain [] = ground arith
    plain (c ∷ s) = ground (arith, Plain_iff c, plain s)

or_default-Chosen : (written default : Bytes) → Chosen written default (or_default written default)
unfolding or_default
or_default-Chosen written default = elim (Bool-cases (written == [])) [
  | inl unset ↦ rw unset (by_default ((==_iff written []).0 unset))
  | inr set ↦ rw set (as_written (λ e. ground (arith, ==_iff written [], e)))
]

Chosen-unique :
    {written default chosen : Bytes}
    → Chosen written default chosen
    → or_default written default ≡ chosen
unfolding or_default
Chosen-unique {written} (by_default unset) = ground (arith, ==_iff written [], unset)
Chosen-unique {written} (as_written set) = ground (arith, ==_iff written [], set)

ok_injective : {a b : AdminConnection} → ok a ≡ ok b → a ≡ b
ok_injective h = cc

-- A verdict that is returned accepts if it has no error.
returned_iff :
    (v : Verdict) → ((warnings : List Bytes) × (done v ≡ done (warnings, none))) ↔ (v.1 ≡ none)
returned_iff v = ((λ (ws, e). error_of e), (λ e. (v.0, ap (λ (x : Option Error). done (v.0, x)) e)))
  where
    error_of : {u v : Verdict} → done u ≡ done v → u.1 ≡ v.1
    error_of e = ap (λ (o : Outcome Verdict). elim o [ done x ↦ x.1 | panic ↦ none ]) e

-- A request that a test guards.
guarded_iff :
    (b : Bool) (message : Bytes) (m : Exec Verdict) (w : World) {P : Type 0}
    → Accepts m w ↔ P
    → Accepts (if not b then pure (rejected message) else m) w ↔ ((b ≡ true) × P)
guarded_iff true message m w (forth, back) = ((λ h. (refl, forth h)), (λ (_, p). back p))
guarded_iff false message m w h =
    ((λ (ws, e). absurd (some_ne_none ((returned_iff _).0 (ws, e)))), (λ (e, _). cc))
  where
    some_ne_none : {x : Error} → some x ≢ none
    some_ne_none e = cc

check_combo_iff :
    (database : Database) (admin : Result AdminConnection)
    → ((check_combo database admin).1 ≡ none)
      ↔ ((a : AdminConnection) × (admin ≡ ok a) × Offered database a)
unfolding check_combo
check_combo_iff database (err e) = ((λ h. cc), (λ (a, h, _). cc))
check_combo_iff database (ok admin) =
    let (forth, back) = check_charsets-Has _ _ admin.status.available_charsets in
    (
      (λ h. (admin, refl, (_, _, or_default-Chosen _ _, or_default-Chosen _ _, forth h))),
      (λ (a, same, offered).
          back (defaults (subst (Offered database) (sym (ok_injective same)) offered))),
    )
  where
    defaults :
        Offered database admin
        → Has (or_default database.spec.collate admin.status.collation) (
            or_empty (
              find_charset
                (or_default database.spec.character_set admin.status.character_set)
                admin.status.available_charsets))
    defaults (charset, collation, wanted, ordered, has) =
        rw (Chosen-unique wanted, Chosen-unique ordered) has

module _ (env : Env) (database : Database) where
  -- A connection is read under the key, and what it offers has the combination.
  abbrev pub Found : World → NamespacedName → Type 0
  Found w key =
      (admin : AdminConnection) × (env.get_admin w.log key ≡ ok admin) × Offered database admin

  -- There is no connection to test against, or what it offers has the combination. A reference without
  -- a namespace is to one in that of the database.
  abbrev pub Combines : World → Type 0
  Combines w =
      (database.spec.admin_connection.name ≡ [])
      ⊎ ((namespace : Bytes) × Chosen database.spec.admin_connection.namespace
            database.meta.namespace namespace
          × Found w (record { namespace = namespace; name = database.spec.admin_connection.name }))

  referred-Chosen :
      (w : World)
      → Found w (referred env database) ↔ (
          (namespace : Bytes) × Chosen database.spec.admin_connection.namespace
            database.meta.namespace namespace
          × Found w (record { namespace = namespace; name = database.spec.admin_connection.name }))
  unfolding referred
  referred-Chosen w = elim (Bool-cases (database.spec.admin_connection.namespace == [])) [
    | inl unset ↦ rw unset (
      (λ found. (_, by_default ((==_iff _ _).0 unset), found)),
      (λ (namespace, chosen, found).
          subst (at w) (sym (Chosen-unique chosen) ∙ unfold or_default in rw unset refl) found),
    )
    | inr set ↦ rw set (
      (λ found. (_, as_written (λ e. unset_ne e set), found)),
      (λ (namespace, chosen, found).
          subst (at w) (sym (Chosen-unique chosen) ∙ unfold or_default in rw set refl) found),
    )
  ]
    where
      at : World → Bytes → Type 0
      at w namespace =
          Found w (record { namespace = namespace; name = database.spec.admin_connection.name })

      unset_ne : {name : Bytes} → name ≡ [] → name == [] ≡ false → ⊥
      unset_ne {name} e h = ground (arith, ==_iff name [])

  combination_iff :
      (w : World) → Accepts (validate_charset_collation_combo env database) w ↔ Combines w
  unfolding validate_charset_collation_combo looked_up call
  combination_iff w = elim (Bool-cases (database.spec.admin_connection.name == [])) [
    | inl unset ↦ rw (unset) ((λ h. inl ((==_iff _ _).0 unset)), (λ h. ([], refl)))
    | inr set ↦
        let (forth, back) =
          check_combo_iff database (env.get_admin w.log (referred env database)) in
        let (accepts, accepted) =
          returned_iff (check_combo database (env.get_admin w.log (referred env database))) in
        rw (set) (
          (λ h. inr ((referred-Chosen w).0 (forth (accepts h)))),
          elim [
            | inl name ↦ absurd (set_ne name set)
            | inr found ↦ accepted (back ((referred-Chosen w).1 found))
          ],
        )
  ]
    where
      set_ne : {name : Bytes} → name ≡ [] → name == [] ≡ false → ⊥
      set_ne {name} e h = ground (arith, ==_iff name [])

  module _ (rune_count : Bytes → ℕ) (old : Database) where
    -- A creation is accepted, with or without a warning, exactly when the name has 1 to 64 characters and
    -- none of `\ / ? % * : | " < > .`, and an update exactly when the name is the old one; and in both cases no connection is named, or
    -- the one that is named, by default in the namespace of the database, could be read and the collation, by default the server's, is one of the
    -- charset, by default the server's. All other requests are rejected, a deletion never.
    pub validate_iff :
        (w : World)
        → (Accepts (validate_create env rune_count database) w
            ↔ (IsName rune_count database.spec.name × Combines w))
          × (Accepts (validate_update env database old) w
              ↔ ((database.spec.name ≡ old.spec.name) × Combines w))
          × Accepts (validate_delete database) w
    unfolding validate_create validate_update validate_delete
    validate_iff w =
        let (named, nameable) = name_matches_iff rune_count database.spec.name in
        let (checked, passed) = guarded_iff _ _ _ w (combination_iff w) in
        let (forth, back) = guarded_iff _ _ _ w (combination_iff w) in
        (
          (
            (λ h. let (matches, combines) = checked h in (named matches, combines)),
            (λ (name, combines). passed (nameable name, combines)),
          ),
          (
            (λ h. let (same, combines) = forth h in ((==_iff _ _).0 same, combines)),
            (λ (same, combines). back ((==_iff _ _).1 same, combines)),
          ),
          ([], refl),
        )
