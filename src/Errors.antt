-- ===== src/Errors.antt =====
-- errors/index.ts: the text of a thrown value, and the wrapper `OperationError` for code that
-- crosses an untyped boundary.
use mitools.Prelude.{Text, codes, ◌++◌, [], ◌∷◌, Result, map_error}

-- A thrown value, as `causeMessage` tells them apart: an `Error` with its message and name, a
-- string, an object whose `message` is a string, and anything else with its `String(cause)`.
pub data Cause : Type 0 where
  error : Text → Text → Cause
  string : Text → Cause
  object : Text → Cause
  other : Text → Cause

-- `a || b` on strings
abbrev pub or_text : Text → Text → Text
or_text [] b = b
or_text (c ∷ a) b = c ∷ a

unfoldable pub cause_message : Cause → Text
cause_message (error message name) = or_text message name
cause_message (string s) = s
cause_message (object message) = message
cause_message (other s) = s

pub record OperationError : Type 0 where
  pub source : Text
  pub operation : Text
  pub cause : Cause

unfoldable pub operation_message : OperationError → Text
operation_message e = e.operation ++ (codes ": " ++ cause_message e.cause)

abbrev pub wrap : Text → Text → Cause → OperationError
wrap source operation cause = record { source = source; operation = operation; cause = cause }

-- `operationErrors(source).sync(operation, evaluate)`: `evaluate` throws or returns.
abbrev pub sync : {A : Type 0} → Text → Text → Result Cause A → Result OperationError A
sync source operation evaluate = map_error (wrap source operation) evaluate
