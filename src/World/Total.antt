-- ===== src/World/Total.antt =====
-- Functions that return: no panic, whatever the environment replies.
use mysql_dba_operator.Base.{
  Bool, true, false, ◌≡◌, ◌≢◌, refl, sym, ◌∙◌, ap, if◌then◌else◌, Bytes, Option, none, some,
}
use mysql_dba_operator.Orm.{ConnectionDefinition}
use mysql_dba_operator.World.{Event, Log, World}
use mysql_dba_operator.World.Exec.{
  Outcome, done, panic, Exec, pure, continue, ◌>>=◌, call, look, note, set_cache,
}

-- `m` returns a value that has `Q`.
pub record Returns {A : Type 0} (Q : A → Type 0) (m : Exec A) : Type 0 where
  pub at : (w : World) → (a : A) × ((m w).0 ≡ done a) × Q a

abbrev pub Total : {A : Type 0} → Exec A → Type 0
Total = Returns (λ _. Unit {0})

module _ {A : Type 0} {Q : A → Type 0} where
  pub Returns-pure : (a : A) → Q a → Returns Q (pure a)
  Returns-pure a h = record { at = λ w. (a, refl, h) }

  pub Returns-if :
      (b : Bool) (m n : Exec A) → Returns Q m → Returns Q n → Returns Q (if b then m else n)
  Returns-if true m n hm hn = hm
  Returns-if false m n hm hn = hn

  pub Returns-bind :
      {B : Type 0} {P : B → Type 0} (m : Exec B) (f : B → Exec A)
      → Returns P m
      → ((b : B) → P b → Returns Q (f b))
      → Returns Q (m >>= f)
  Returns-bind {B} m f hm hf = record {
    at = λ w.
        let (b, e, p) = hm.at w in
        let (a, e', q) = (hf b p).at (m w).1 in
        (a, ap (λ (o : Outcome B). (continue o f (m w).1).0) e ∙ e', q);
  }

pub Total-call : {A : Type 0} (reply : Log → A) (event : A → Event) → Total (call reply event)
unfolding call
Total-call reply event = record { at = λ w. (reply w.log, refl, tt) }

pub Total-look : {A : Type 0} (reply : Log → A) → Total (look reply)
unfolding look
Total-look reply = record { at = λ w. (reply w.log, refl, tt) }

pub Total-note : (event : Event) → Total (note event)
unfolding note
Total-note event = record { at = λ w. (tt, refl, tt) }

pub Total-ne_panic : {A : Type 0} (m : Exec A) → Total m → (w : World) → (m w).0 ≢ panic
Total-ne_panic m h w e = let (a, e', _) = h.at w in absurd (done-ne_panic a (sym e' ∙ e))
  where
    done-ne_panic : {A : Type 0} (a : A) → done a ≢ panic
    done-ne_panic a e = cc

-- What does not panic returns.
pub Total-of_ne_panic : {A : Type 0} (m : Exec A) → ((w : World) → (m w).0 ≢ panic) → Total m
Total-of_ne_panic m h = record { at = λ w. go (m w).0 (h w) }
  where
    go : {A : Type 0} (o : Outcome A) → o ≢ panic → (a : A) × (o ≡ done a) × Unit {0}
    go (done a) h = (a, refl, tt)
    go panic h = absurd (h refl)

pub Total-set_cache :
    (uid : Bytes) (entry : Option ConnectionDefinition) → Total (set_cache uid entry)
unfolding set_cache
Total-set_cache uid entry = record { at = λ w. (tt, refl, tt) }

pub Total-pure : {A : Type 0} (a : A) → Total (pure a)
Total-pure a = Returns-pure a tt

pub Total-if :
    {A : Type 0} (b : Bool) (m n : Exec A) → Total m → Total n → Total (if b then m else n)
Total-if = Returns-if

pub Total-bind :
    {A B : Type 0} (m : Exec A) (f : A → Exec B)
    → Total m
    → ((a : A) → Total (f a))
    → Total (m >>= f)
Total-bind m f hm hf = Returns-bind m f hm (λ a _. hf a)

pub Total-option :
    {A B : Type 0} (o : Option A) (m : Exec B) (f : A → Exec B)
    → Total m
    → ((a : A) → Total (f a))
    → Total (elim o [ none ↦ m | some a ↦ f a ])
Total-option none m f hm hf = hm
Total-option (some a) m f hm hf = hf a

pub ruleset returns = (Total-pure, Total-call, Total-look, Total-note, Total-bind, Total-if)
