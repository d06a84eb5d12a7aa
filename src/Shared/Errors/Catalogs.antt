-- ===== src/Shared/Errors/Catalogs.antt =====
-- src/modules/shared/common/errors/error-codes.ts and error-code.types.ts: the catalogs of errors, in
-- the order of their entries.
use Prim.Native.String.{String}
use nestjs_boilerplate.Base.{ℕ, List, [], ◌∷◌, Text, codes}

pub record ErrorCodeDefinition : Type 0 where
  pub code : Text
  pub http_status : ℕ
  pub message : Text

abbrev definition : String → ℕ → String → ErrorCodeDefinition
definition code http_status message = record {
  code = codes code;
  http_status = http_status;
  message = codes message;
}

abbrev pub common_errors : List ErrorCodeDefinition
common_errors =
    definition "COMMON_VALIDATION_FAILED" 400 "Validation failed"
    ∷ definition "COMMON_INTERNAL_ERROR" 500 "Internal server error"
    ∷ definition "COMMON_NOT_FOUND" 404 "Resource not found"
    ∷ definition "COMMON_FORBIDDEN" 403 "Forbidden"
    ∷ definition "COMMON_UNAUTHORIZED" 401 "Unauthorized"
    ∷ definition "COMMON_CONFLICT" 409 "Conflict"
    ∷ definition "COMMON_FORBIDDEN_ADMIN_ONLY" 403 "Admin access required"
    ∷ definition "COMMON_FORBIDDEN_MISSING_PERMISSION" 403 "Insufficient permissions"
    ∷ definition "COMMON_BUSINESS_RULE_VIOLATION" 400 "Business rule violation"
    ∷ definition "COMMON_RATE_LIMITED" 429 "Too many requests"
    ∷ definition "COMMON_INVALID_STATE_TRANSITION" 409 "Invalid state transition"
    ∷ []

abbrev pub auth_errors : List ErrorCodeDefinition
auth_errors =
    definition "AUTH_INVALID_CREDENTIALS" 401 "Invalid credentials"
    ∷ definition "AUTH_EMAIL_ALREADY_IN_USE" 409 "Email already in use"
    ∷ []

abbrev pub user_errors : List ErrorCodeDefinition
user_errors = definition "USER_NOT_FOUND" 404 "User not found" ∷ []

abbrev pub storage_errors : List ErrorCodeDefinition
storage_errors =
    definition "STORAGE_FILENAME_REQUIRED" 400 "A filename is required"
    ∷ definition "STORAGE_FILENAME_INVALID" 400 "Filename is invalid"
    ∷ []

abbrev pub media_errors : List ErrorCodeDefinition
media_errors =
    definition "MEDIA_FILE_SIZE_EXCEEDS_LIMIT" 400
      "File size {fileSize} exceeds the limit of {maxFileSize} bytes"
    ∷ definition "MEDIA_ASSET_NOT_FOUND" 404 "Media asset {id} not found"
    ∷ []

abbrev pub legal_documents_errors : List ErrorCodeDefinition
legal_documents_errors =
    definition "LEGAL_DOCUMENT_NOT_FOUND" 404 "Legal document not found"
    ∷ definition "LEGAL_DOCUMENT_NOT_FOUND_BY_SLUG" 404 "Legal document '{slug}' not found"
    ∷ []

abbrev pub bug_report_errors : List ErrorCodeDefinition
bug_report_errors = definition "BUG_REPORT_NOT_FOUND" 404 "Bug report {id} not found" ∷ []

abbrev pub notification_errors : List ErrorCodeDefinition
notification_errors = definition "NOTIFICATION_NOT_FOUND" 404 "Notification not found" ∷ []
