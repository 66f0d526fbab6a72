-- ===== src/Store/Errors.antt =====
-- `store.Error` of internal/store/store.go, and the errors that the operations return.
use Prim.Native.String.{◌++◌}
use azure_keyvault_emulator.Prelude.{ℕ, String}

pub record Error : Type 0 where
  pub status : ℕ
  pub code : String
  pub message : String

unfoldable pub new_error : ℕ → String → String → Error
new_error status code message = record { status = status; code = code; message = message }

unfoldable pub bad_parameter : String → Error
unfolding new_error
bad_parameter message = new_error 400 "BadParameter" message

-- `kind` is "secret", "key" or "certificate", and `code` the code of its "not found" errors.
unfoldable pub not_found : String → String → String → Error
unfolding new_error
not_found kind code name =
    new_error 404 code
      ("A " ++ (kind ++ (" with (name/id) " ++ (name ++ " was not found in this key vault."))))

unfoldable pub deleted_not_found : String → String → String → Error
unfolding new_error
deleted_not_found kind code name =
    new_error 404 code
      ("A deleted " ++ (kind ++ (" with name " ++ (name ++ " was not found in this key vault."))))

unfoldable pub currently_deleted : String → String → Error
unfolding new_error
currently_deleted kind name = new_error 409 "InvalidOperation" (
    kind
    ++ (" " ++ (name ++ " is currently deleted and cannot be reused until recovered or purged.")))

unfoldable pub already_exists : String → String → Error
unfolding new_error
already_exists kind name = new_error 409 "Conflict" (kind ++ (" " ++ (name ++ " already exists.")))
