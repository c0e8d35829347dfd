-- ===== src/Logging.antt =====
-- internal/hexagon/application/secret_filter.go: what goes to the log, through the filters for secrets.
use k_deskflight.Base.{String, List, [], ◌∷◌, ◌++◌, Option, none, some}
use k_deskflight.Domain.{Severity, ConditionStatus, Result}

pub data Level : Type 0 where
  info warn error : Level

-- slog.Attr, with its value as text
abbrev pub Attr : Type 0
Attr = String × String

pub record LogEntry : Type 0 where
  pub level : Level
  pub message : String
  pub attrs : List Attr

-- What a log call does to the rest of the world; `none` is a nil logger.
abbrev pub Logger : Type 0 → Type 0
Logger W = LogEntry → W → W

unfoldable pub sanitize_message : String → String
sanitize_message msg = msg

unfoldable pub sanitize_attrs : List Attr → List Attr
sanitize_attrs attrs = attrs

-- string(result.Severity)
abbrev pub severity_text : Severity → String
severity_text Severity.info = "info"
severity_text Severity.warning = "warning"
severity_text Severity.critical = "critical"
severity_text (Severity.other s) = s

-- string(result.Status)
abbrev pub status_text : ConditionStatus → String
status_text ConditionStatus.is_true = "True"
status_text ConditionStatus.is_false = "False"
status_text ConditionStatus.unknown = "Unknown"
status_text (ConditionStatus.other s) = s

abbrev pub log_entry : Level → String → List Attr → LogEntry
log_entry level message attrs = record { level = level; message = message; attrs = attrs }

module _ {W : Type 0} where
  -- a log call on a logger that may be nil, as the runner guards it
  abbrev pub log_with : Option (Logger W) → LogEntry → W → W
  log_with none e w = w
  log_with (some logger) e w = logger e w

  unfoldable pub log_result : Option (Logger W) → Level → String → Result → List Attr → W → W
  unfolding sanitize_message sanitize_attrs
  log_result logger level msg r extra w =
      log_with logger
        (log_entry level (sanitize_message msg) (
          sanitize_attrs (
            (("check", r.name)
              ∷ ("status", status_text r.status)
              ∷ ("reason", r.reason)
              ∷ ("severity", severity_text r.severity)
              ∷ ("message", sanitize_message r.message)
              ∷ [])
            ++ extra)))
        w
