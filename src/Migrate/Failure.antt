-- ===== src/Migrate/Failure.antt =====
-- What a migration throws, and why a connection could not be opened:
-- packages/core/src/domain/errors/migration.errors.ts and connection-failure.ts.
use Prim.Native.String.{◌++◌ as append, len}
use nodejs_movy_data.Prelude.{
  String, Bool, Option, none, some, List, [], ◌∷◌, Dict, lookup, or_else, ltb, if◌then◌else◌,
}
use nodejs_movy_data.Events.Types.{SerialisedError}
use nodejs_movy_data.Migrate.Language.{Language}

-- A thrown value: `MigrationCancelledError`, an Error with the driver's code, one that has the failure
-- it wraps in `originalError`, and a value that is no Error, as `String(err)`.
pub data Failure : Type 0 where
  cancelled : (message : String) → Failure
  failed : (name message : String) (code : Option String) → Failure
  wrapping : (name message : String) (code : Option String) (original : Failure) → Failure
  other : (text : String) → Failure

unfoldable pub message_of : Failure → String
message_of (cancelled message) = message
message_of (failed name message code) = message
message_of (wrapping name message code original) = message
message_of (other text) = text

unfoldable pub to_serialised_error : Failure → SerialisedError
to_serialised_error (cancelled message) = record {
  name = "MigrationCancelledError";
  message = message;
}
to_serialised_error (failed name message code) = record { name = name; message = message }
to_serialised_error (wrapping name message code original) = record {
  name = name;
  message = message;
}
to_serialised_error (other text) = record { name = "Error"; message = text }

-- `err instanceof MigrationCancelledError`
unfoldable pub is_cancelled : Failure → Bool
is_cancelled (cancelled message) = Bool.true
is_cancelled _ = Bool.false

pub data FailureKind : Type 0 where
  auth unreachable permission missing_database tls timeout unknown : FailureKind

unfoldable pub kind_name : FailureKind → String
kind_name auth = "auth"
kind_name unreachable = "unreachable"
kind_name permission = "permission"
kind_name missing_database = "missing_database"
kind_name tls = "tls"
kind_name timeout = "timeout"
kind_name unknown = "unknown"

unfoldable pub summaries : FailureKind → String
summaries auth =
    "The database rejected the username or password. Check the credentials on this connection."
summaries unreachable =
    "The database could not be reached at that host and port. Check the address, the port, and that the server is running and reachable from here."
summaries permission =
    "The credentials are valid but lack the privileges this operation needs. Ask a database administrator to grant them."
summaries missing_database = "The named database does not exist on that server."
summaries tls = "The TLS handshake failed. Check whether this connection should have SSL enabled."
summaries timeout =
    "The database did not respond in time. It may be overloaded, or a firewall may be dropping the connection."
summaries unknown = "The connection failed for a reason Movy does not recognise."

abbrev pub code_kinds : Dict FailureKind
code_kinds =
    ("28P01", auth)
    ∷ ("28000", auth)
    ∷ ("3D000", missing_database)
    ∷ ("42501", permission)
    ∷ ("53300", unreachable)
    ∷ ("57P03", unreachable)
    ∷ ("ER_ACCESS_DENIED_ERROR", auth)
    ∷ ("ER_DBACCESS_DENIED_ERROR", permission)
    ∷ ("ER_BAD_DB_ERROR", missing_database)
    ∷ ("ER_CON_COUNT_ERROR", unreachable)
    ∷ ("ELOGIN", auth)
    ∷ ("ESOCKET", unreachable)
    ∷ ("ETIMEOUT", timeout)
    ∷ ("ENOTFOUND", unreachable)
    ∷ ("EAI_AGAIN", unreachable)
    ∷ ("ECONNREFUSED", unreachable)
    ∷ ("EHOSTUNREACH", unreachable)
    ∷ ("ENETUNREACH", unreachable)
    ∷ ("ECONNRESET", unreachable)
    ∷ ("EPIPE", unreachable)
    ∷ ("ETIMEDOUT", timeout)
    ∷ ("CERT_HAS_EXPIRED", tls)
    ∷ ("DEPTH_ZERO_SELF_SIGNED_CERT", tls)
    ∷ ("SELF_SIGNED_CERT_IN_CHAIN", tls)
    ∷ ("UNABLE_TO_VERIFY_LEAF_SIGNATURE", tls)
    ∷ ("ERR_TLS_CERT_ALTNAME_INVALID", tls)
    ∷ []

abbrev pub prose_kinds : List (String × FailureKind)
prose_kinds =
    ("/password authentication failed|access denied for user|login failed for user/i", auth)
    ∷ ("/authentication .*failed|invalid (user ?name|credentials)/i", auth)
    ∷ ("/permission denied|must be (owner|superuser)|privilege/i", permission)
    ∷ ("/database \".*\" does not exist|unknown database|cannot open database/i", missing_database)
    ∷ ("/self[- ]signed certificate|certificate has expired|ssl|tls/i", tls)
    ∷ ("/timed out|timeout/i", timeout)
    ∷ (
      "/getaddrinfo|econnrefused|no such host|could not connect|server (was )?not found/i",
      unreachable,
    )
    ∷ []

-- A code that is the empty text counts as none.
abbrev named_code : Option String → Option String
named_code none = none
named_code (some code) = if ltb 0 (len code) then some code else none

unfoldable pub code_of : Failure → Option String
code_of (cancelled message) = none
code_of (failed name message code) = named_code code
code_of (wrapping name message code original) = or_else (named_code code) (code_of original)
code_of (other text) = none

module _ (js : Language) where
  unfoldable pub prose_kind : List (String × FailureKind) → String → FailureKind
  prose_kind [] message = unknown
  prose_kind (p ∷ rest) message = if js.matches p.0 message then p.1 else prose_kind rest message

  unfoldable pub kind_of_code : Option String → Option FailureKind
  kind_of_code none = none
  kind_of_code (some code) = or_else (lookup code code_kinds) (lookup (js.to_upper code) code_kinds)

  -- The kind; its summary is `summaries` of it.
  unfoldable pub classify_connection_error : Failure → FailureKind
  classify_connection_error err = elim (kind_of_code (code_of err)) [
    | some kind ↦ kind
    | none ↦ prose_kind prose_kinds (message_of err)
  ]

  -- `connectOrExplain`'s ConnectionError, which has the original as its cause.
  unfoldable pub explained : String → Failure → Failure
  explained role err =
      let kind = classify_connection_error err in
      let message = append role (
        append " connection failed (" (
          append (kind_name kind) (
            append "). "
              (append (summaries kind) (append " The database said: " (message_of err)))))) in
      failed "ConnectionError" message none
