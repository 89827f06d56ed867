-- ===== src/Domain/Errors.antt =====
-- accts-api/domain/errors.go, and the translation of database errors in
-- accts-api/adapters/postgres/internal/repository/helpers.go.
use text.Mathlib.Text.{find?}
use paisa.Prelude.{String, ◌==◌, Bool, true, false, Option, none, some, if◌then◌else◌}

pub data ErrorKind : Type 0 where
  invalid not_found conflict invariant internal : ErrorKind

-- Go's `error`: an `AppError`, with or without a cause, `sql.ErrNoRows`, or any other with a text.
pub data Error : Type 0 where
  app_error : ErrorKind → String → Error
  wrapped : ErrorKind → String → Error → Error
  no_rows : Error
  other : String → Error

unfoldable pub invalid_error : String → Error
invalid_error message = app_error invalid message

unfoldable pub conflict_error : String → Error
conflict_error message = app_error conflict message

unfoldable pub invariant_error : String → Error
invariant_error message = app_error invariant message

-- `errors.As` finds the first `AppError`, which is the outermost.
unfoldable pub kind? : Error → Option ErrorKind
kind? (app_error k _) = some k
kind? (wrapped k _ _) = some k
kind? no_rows = none
kind? (other _) = none

abbrev pub kind_eq : ErrorKind → ErrorKind → Bool
kind_eq invalid invalid = true
kind_eq not_found not_found = true
kind_eq conflict conflict = true
kind_eq invariant invariant = true
kind_eq internal internal = true
kind_eq _ _ = false

unfoldable pub is_error_kind : Error → ErrorKind → Bool
unfolding kind?
is_error_kind e k = elim (kind? e) [ none ↦ false | some j ↦ kind_eq j k ]

abbrev kind_text : ErrorKind → String
kind_text invalid = "invalid"
kind_text not_found = "not_found"
kind_text conflict = "conflict"
kind_text invariant = "invariant"
kind_text internal = "internal"

-- `Error()`. The text of `sql.ErrNoRows` is that of database/sql.
unfoldable pub error_text : Error → String
error_text (app_error k message) = if message == "" then kind_text k else message
error_text (wrapped k message e) =
    let cause = error_text e in if message == "" then cause else message
error_text no_rows = "sql: no rows in result set"
error_text (other message) = message

abbrev contains : String → String → Bool
contains s t = elim (find? s t) [ none ↦ false | some _ ↦ true ]

-- `AppErrorFromDB`, on an error that is not nil.
unfoldable pub app_error_from_db : Error → Error
app_error_from_db (app_error k message) = app_error k message
app_error_from_db (wrapped k message e) = wrapped k message e
app_error_from_db no_rows = wrapped not_found "not found" no_rows
app_error_from_db (other msg) =
    if contains msg "duplicate key"
    then wrapped conflict "duplicate record" (other msg)
    else if contains msg "violates foreign key"
    then wrapped invalid "referenced record does not exist" (other msg)
    else wrapped internal "database error" (other msg)

-- `publicFailureReason` of accts-api/application/utils.go: an internal error keeps its text private.
unfoldable pub public_failure_reason : Error → String
unfolding kind? error_text
public_failure_reason e = elim (kind? e) [
  | none ↦ "internal processing error"
  | some k ↦ if kind_eq k internal then "internal processing error" else error_text e
]
