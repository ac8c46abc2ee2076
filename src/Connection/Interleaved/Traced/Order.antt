-- ===== src/Connection/Interleaved/Traced/Order.antt =====
-- Calls that stand in a log in a given order, with any others between them.
use mysql_dba_operator.Base.{[], ◌∷◌, ◌++◌}
use mysql_dba_operator.World.{Event, Log}

pub data InOrder : Log → Log → Type 0 where
  empty : InOrder [] []
  skip : {calls log : Log} (event : Event) → InOrder calls log → InOrder calls (event ∷ log)
  keep :
      {calls log : Log} (event : Event) → InOrder calls log → InOrder (event ∷ calls) (event ∷ log)

pub InOrder-none : (log : Log) → InOrder [] log
InOrder-none [] = empty
InOrder-none (event ∷ log) = skip event (InOrder-none log)

-- The log grows.
pub InOrder-later :
    {calls log : Log} (event : Event) → InOrder calls log → InOrder calls (log ++ event ∷ [])
InOrder-later event empty = skip event empty
InOrder-later event (skip first rest) = skip first (InOrder-later event rest)
InOrder-later event (keep first rest) = keep first (InOrder-later event rest)

-- It grows by the next of the calls.
pub InOrder-snoc :
    {calls log : Log} (event : Event)
    → InOrder calls log
    → InOrder (calls ++ event ∷ []) (log ++ event ∷ [])
InOrder-snoc event empty = keep event empty
InOrder-snoc event (skip first rest) = skip first (InOrder-snoc event rest)
InOrder-snoc event (keep first rest) = keep first (InOrder-snoc event rest)
