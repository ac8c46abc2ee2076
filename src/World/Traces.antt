-- ===== src/World/Traces.antt =====
-- Reasoning about what a function does to the world, whatever the environment replies: a relation
-- between the world before and after that holds of a world with itself and is transitive. `Extends T`
-- is such a relation, for `T` a property of lists of events that is kept by joining lists.
use mysql_dba_operator.Base.{
  All, All-append, Bytes, Bool, true, false, Option, [], ◌∷◌, ◌++◌, append_assoc, append-nil, ◌≡◌,
  refl, sym, ◌∙◌, ap, if◌then◌else◌,
}
use mysql_dba_operator.Orm.{ConnectionDefinition}
use mysql_dba_operator.World.{Event, exec, Log, World}
use mysql_dba_operator.World.Exec.{
  Outcome, done, panic, Exec, pure, crash, continue, ◌>>=◌, call, look, note, get_cache, set_cache,
}

pub record IsPreorder (R : World → World → Type 0) : Type 0 where
  pub here : (w : World) → R w w
  pub chain : {u v w : World} → R u v → R v w → R u w

-- `m` moves the world along `R`, whether it returns or panics.
pub record Moves (R : World → World → Type 0) {A : Type 0} (m : Exec A) : Type 0 where
  pub at : (w : World) → R w (m w).1

module _ {R : World → World → Type 0} (r : IsPreorder R) where
  pub Moves-pure : {A : Type 0} (a : A) → Moves R (pure a)
  Moves-pure a = record { at = λ w. r.here w }

  pub Moves-crash : {A : Type 0} → Moves R (crash {A = A})
  Moves-crash = record { at = λ w. r.here w }

  pub Moves-look : {A : Type 0} (reply : Log → A) → Moves R (look reply)
  unfolding look
  Moves-look reply = record { at = λ w. r.here w }

  pub continue_moves :
      {A B : Type 0} (o : Outcome A) (f : A → Exec B) (w : World)
      → ((a : A) → o ≡ done a → R w (f a w).1)
      → R w (continue o f w).1
  continue_moves (done a) f w h = h a refl
  continue_moves panic f w h = r.here w

  -- The rest of a block may use what the first part returned.
  pub Moves-bind_at :
      {A B : Type 0} (m : Exec A) (f : A → Exec B)
      → Moves R m
      → ((w : World) (a : A) → (m w).0 ≡ done a → R (m w).1 (f a (m w).1).1)
      → Moves R (m >>= f)
  Moves-bind_at m f hm hf = record {
    at = λ w. r.chain (hm.at w) (continue_moves (m w).0 f (m w).1 (hf w));
  }

  -- A block from a world at which its first part is known to have come along `R`.
  pub bind_from :
      {A B : Type 0} (m : Exec A) (f : A → Exec B) (u v : World)
      → R u (m v).1
      → ((a : A) → Moves R (f a))
      → R u ((m >>= f) v).1
  bind_from m f u v first rest =
      r.chain first (continue_moves (m v).0 f (m v).1 (λ a _. (rest a).at (m v).1))

  pub Moves-bind :
      {A B : Type 0} (m : Exec A) (f : A → Exec B)
      → Moves R m
      → ((a : A) → Moves R (f a))
      → Moves R (m >>= f)
  Moves-bind m f hm hf = Moves-bind_at m f hm (λ w a _. (hf a).at (m w).1)

  pub Moves-if :
      {A : Type 0} (b : Bool) (m n : Exec A) → Moves R m → Moves R n → Moves R (if b then m else n)
  Moves-if true m n hm hn = hm
  Moves-if false m n hm hn = hn

pub record IsTrace (T : Log → Type 0) : Type 0 where
  pub empty : T []
  pub join : (xs ys : Log) → T xs → T ys → T (xs ++ ys)

-- The log of `v` is that of `w` with events behind it that have `T`.
pub record Extends (T : Log → Type 0) (w v : World) : Type 0 where
  pub events : Log
  pub split : v.log ≡ w.log ++ events
  pub good : T events

abbrev pub Emits : (Log → Type 0) → {A : Type 0} → Exec A → Type 0
Emits T m = Moves (Extends T) m

-- `m` leaves the connection cache alone.
abbrev pub SameCache : World → World → Type 0
SameCache w v = v.cache ≡ w.cache

pub SameCache-IsPreorder : IsPreorder SameCache
SameCache-IsPreorder = record { here = λ w. refl; chain = λ p q. q ∙ p }

pub call-SameCache :
    {A : Type 0} (reply : Log → A) (event : A → Event) → Moves SameCache (call reply event)
unfolding call
call-SameCache reply event = record { at = λ w. refl }

module _ {T : Log → Type 0} where
  pub Extends-trans : IsTrace T → {u v w : World} → Extends T u v → Extends T v w → Extends T u w
  Extends-trans t {u} a b = record {
    events = a.events ++ b.events;
    split = b.split ∙ ap (λ l. l ++ b.events) a.split ∙ append_assoc u.log a.events b.events;
    good = t.join a.events b.events a.good b.good;
  }

  pub Extends-IsPreorder : IsTrace T → IsPreorder (Extends T)
  Extends-IsPreorder t = record {
    here = λ w. record { events = []; split = sym (append-nil w.log); good = t.empty };
    chain = λ a b. Extends-trans t a b;
  }

  -- A call whose event has `T` by itself.
  pub Emits-call :
      {A : Type 0} (reply : Log → A) (event : A → Event)
      → ((a : A) → T (event a ∷ []))
      → Emits T (call reply event)
  unfolding call
  Emits-call reply event h = record {
    at = λ w. record { events = event (reply w.log) ∷ []; split = refl; good = h (reply w.log) };
  }

pub three_behind :
    (log : Log) (a b c : Event) → ((log ++ a ∷ []) ++ b ∷ []) ++ c ∷ [] ≡ log ++ (a ∷ b ∷ c ∷ [])
three_behind log a b c = simp append_assoc

-- The world behind a call.
abbrev pub logged : Event → World → World
logged event w = record w { log = w.log ++ event ∷ [] }

-- A block that starts with a call, by what it does behind the reply.
pub Moves-call :
    {R : World → World → Type 0} {A B : Type 0} (reply : Log → A) (event : A → Event)
    (f : A → Exec B)
    → ((a : A) (w : World) → R w (f a (logged (event a) w)).1)
    → Moves R (call reply event >>= f)
unfolding call
Moves-call reply event f h = record { at = λ w. h (reply w.log) w }

-- An event that is no statement.
abbrev pub IsQuiet : Event → Type 0
IsQuiet (exec _ _ _) = ⊥
IsQuiet _ = Unit

-- A property of logs that every event but a statement has.
pub record AdmitsQuiet (T : Log → Type 0) : Type 0 where
  pub trace : IsTrace T
  pub quiet : (e : Event) → IsQuiet e → T (e ∷ [])

module _ {T : Log → Type 0} (t : AdmitsQuiet T) where
  pub Emits-quiet :
      {A : Type 0} (reply : Log → A) (event : A → Event)
      → ((a : A) → IsQuiet (event a))
      → Emits T (call reply event)
  Emits-quiet reply event h = Emits-call reply event (λ a. t.quiet (event a) (h a))

  pub Emits-note : (event : Event) → IsQuiet event → Emits T (note event)
  unfolding note
  Emits-note event h = record {
    at = λ w. record { events = event ∷ []; split = refl; good = t.quiet event h };
  }

  pub Emits-set_cache :
      (uid : Bytes) (entry : Option ConnectionDefinition) → Emits T (set_cache uid entry)
  unfolding set_cache
  Emits-set_cache uid entry = record {
    at = λ w. record { events = []; split = sym (append-nil w.log); good = t.trace.empty };
  }

  pub Emits-get_cache : (uid : Bytes) → Emits T (get_cache uid)
  unfolding get_cache
  Emits-get_cache uid = record {
    at = λ w. record { events = []; split = sym (append-nil w.log); good = t.trace.empty };
  }

  pub Emits-pure : {A : Type 0} (a : A) → Emits T (pure a)
  Emits-pure = Moves-pure (Extends-IsPreorder t.trace)

  pub Emits-crash : {A : Type 0} → Emits T (crash {A = A})
  Emits-crash = Moves-crash (Extends-IsPreorder t.trace)

  pub Emits-look : {A : Type 0} (reply : Log → A) → Emits T (look reply)
  Emits-look = Moves-look (Extends-IsPreorder t.trace)

  pub Emits-bind :
      {A B : Type 0} (m : Exec A) (f : A → Exec B)
      → Emits T m
      → ((a : A) → Emits T (f a))
      → Emits T (m >>= f)
  Emits-bind = Moves-bind (Extends-IsPreorder t.trace)

  pub Emits-if :
      {A : Type 0} (b : Bool) (m n : Exec A) → Emits T m → Emits T n → Emits T (if b then m else n)
  Emits-if = Moves-if (Extends-IsPreorder t.trace)

-- The log holds no statement.
abbrev pub Quiet : Log → Type 0
Quiet log = All IsQuiet log

pub Quiet-AdmitsQuiet : AdmitsQuiet Quiet
Quiet-AdmitsQuiet = record {
  trace = record { empty = tt; join = λ xs ys. All-append IsQuiet xs ys };
  quiet = λ e h. (h, tt);
}
