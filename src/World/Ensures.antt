-- ===== src/World/Ensures.antt =====
-- What a function adds to the log together with what it returns: `Ensures T Q m` says that `m` adds
-- events that have `T`, and that a value it returns has `Q`.
use mysql_dba_operator.Base.{Bool, true, false, ◌≡◌, refl, if◌then◌else◌}
use mathlib.Core.Path.{subst}
use mysql_dba_operator.World.{Log, World}
use mysql_dba_operator.World.Exec.{Outcome, done, panic, Exec, pure, crash, continue, ◌>>=◌}
use mysql_dba_operator.World.Traces.{Extends, AdmitsQuiet, Extends-trans, Emits, Extends-IsPreorder}

pub record Ensures (T : Log → Type 0) {A : Type 0} (Q : A → Type 0) (m : Exec A) : Type 0 where
  pub emits : (w : World) → Extends T w (m w).1
  pub gives : (w : World) (a : A) → (m w).0 ≡ done a → Q a

done_value : {A : Type 0} {a b : A} → done a ≡ done b → a ≡ b
done_value e = cc

pub Ensures-Emits :
    {T : Log → Type 0} {A : Type 0} {Q : A → Type 0} {m : Exec A} → Ensures T Q m → Emits T m
Ensures-Emits h = record { at = h.emits }

module _ {T : Log → Type 0} (t : AdmitsQuiet T) {A : Type 0} {Q : A → Type 0} where
  pub Ensures-pure : (a : A) → Q a → Ensures T Q (pure a)
  Ensures-pure a h = record {
    emits = (Extends-IsPreorder t.trace).here;
    gives = λ w b e. subst Q (done_value e) h;
  }

  pub Ensures-crash : Ensures T Q (crash {A = A})
  Ensures-crash = record { emits = (Extends-IsPreorder t.trace).here; gives = λ w b e. cc }

  -- Where nothing is said of the value.
  pub Ensures-any : (m : Exec A) → Emits T m → ((a : A) → Q a) → Ensures T Q m
  Ensures-any m h all = record { emits = h.at; gives = λ w a e. all a }

  pub Ensures-if :
      (b : Bool) (m n : Exec A) → Ensures T Q m → Ensures T Q n → Ensures T Q (if b then m else n)
  Ensures-if true m n hm hn = hm
  Ensures-if false m n hm hn = hn

  continue-Ensures :
      {B : Type 0} (o : Outcome B) (f : B → Exec A) (u w : World)
      → Extends T u w
      → ((b : B) → o ≡ done b → Ensures T Q (f b))
      → Extends T u (continue o f w).1 × ((a : A) → (continue o f w).0 ≡ done a → Q a)
  continue-Ensures (done b) f u w x h =
      (Extends-trans t.trace x ((h b refl).emits w), λ a e. (h b refl).gives w a e)
  continue-Ensures panic f u w x h = (x, λ a e. cc)

  pub Ensures-bind :
      {B : Type 0} {P : B → Type 0} (m : Exec B) (f : B → Exec A)
      → Ensures T P m
      → ((b : B) → P b → Ensures T Q (f b))
      → Ensures T Q (m >>= f)
  Ensures-bind m f hm hf = record {
    emits =
        λ w. (continue-Ensures (m w).0 f w (m w).1 (hm.emits w) (λ b e. hf b (hm.gives w b e))).0;
    gives =
        λ w. (continue-Ensures (m w).0 f w (m w).1 (hm.emits w) (λ b e. hf b (hm.gives w b e))).1;
  }

  -- A first part of which only its events matter.
  pub Ensures-after :
      {B : Type 0} (m : Exec B) (f : B → Exec A)
      → Emits T m
      → ((b : B) → Ensures T Q (f b))
      → Ensures T Q (m >>= f)
  Ensures-after m f hm hf =
      Ensures-bind {P = λ _. Unit {0}} m f (record { emits = hm.at; gives = λ w a e. tt })
        (λ b _. hf b)

module _ {T : Log → Type 0} (t : AdmitsQuiet T) {A : Type 0} where
  pub Emits-after :
      {B : Type 0} {P : B → Type 0} (m : Exec B) (f : B → Exec A)
      → Ensures T P m
      → ((b : B) → P b → Emits T (f b))
      → Emits T (m >>= f)
  Emits-after m f hm hf = Ensures-Emits (
      Ensures-bind t {Q = λ _. Unit {0}} m f hm
        (λ b p. record { emits = (hf b p).at; gives = λ w a e. tt }))
