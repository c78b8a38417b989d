-- ===== src/Base/Outcomes.antt =====
-- What a fallible call gives back: a value or the error that it throws.
pub data Outcome (E A : Type 0) : Type 0 where
  ok : A → Outcome E A
  err : E → Outcome E A
