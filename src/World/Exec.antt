-- ===== src/World/Exec.antt =====
-- The monad of the operator's functions, and a call of the environment.
use mysql_dba_operator.Base.{Bytes, Option, [], ◌∷◌, ◌++◌, ◌==◌, if◌then◌else◌}
use mysql_dba_operator.Orm.{ConnectionDefinition}
use mysql_dba_operator.World.{Event, Log, World, Cache}

pub data Outcome (A : Type 0) : Type 0 where
  done : A → Outcome A
  panic : Outcome A

abbrev pub Exec : Type 0 → Type 0
Exec A = World → Outcome A × World

abbrev pub pure : {A : Type 0} → A → Exec A
pure a w = (done a, w)

-- A runtime panic, such as a read through a nil pointer.
abbrev pub crash : {A : Type 0} → Exec A
crash w = (panic, w)

abbrev pub continue : {A B : Type 0} → Outcome A → (A → Exec B) → Exec B
continue (done a) f w = f a w
continue panic f w = (panic, w)

infixl 5 ◌>>=◌ ◌>>◌
abbrev pub ◌>>=◌ : {A B : Type 0} → Exec A → (A → Exec B) → Exec B
◌>>=◌ m f w = continue (m w).0 f (m w).1

abbrev pub ◌>>◌ : {B : Type 0} → Exec (Unit {0}) → Exec B → Exec B
m >> k = m >>= λ _. k

-- One call: its reply depends on the log, and both go into the log.
unfoldable pub call : {A : Type 0} → (Log → A) → (A → Event) → Exec A
call reply event w = (done (reply w.log), record w { log = w.log ++ event (reply w.log) ∷ [] })

-- Reads the clock or the random source, which no log entry is made for.
unfoldable pub look : {A : Type 0} → (Log → A) → Exec A
look reply w = (done (reply w.log), w)

unfoldable pub get_cache : Bytes → Exec (Option ConnectionDefinition)
get_cache uid w = (done (w.cache uid), w)

-- `cache[uid] = entry`, and with `none` `delete(cache, uid)`.
unfoldable pub update : Cache → Bytes → Option ConnectionDefinition → Cache
update cache uid entry = λ other. if uid == other then entry else cache other

unfoldable pub set_cache : Bytes → Option ConnectionDefinition → Exec (Unit {0})
unfolding update
set_cache uid entry w = (done tt, record w { cache = update w.cache uid entry })

-- A call whose reply is ignored.
unfoldable pub note : Event → Exec (Unit {0})
note event w = (done tt, record w { log = w.log ++ event ∷ [] })
