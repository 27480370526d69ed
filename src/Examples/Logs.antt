-- ===== src/Examples/Logs.antt =====
-- src/mcp_gateway/audit.py at a concrete record.
use mcp_auth_gateway.Prelude.{Str, true, false, ◌≡◌, refl, some, none, [], ◌∷◌, codes}
use mcp_auth_gateway.Json.Print.Printable.{all_printable}
use mcp_auth_gateway.Audit.{Reason, AuditRecord, new_record, completed}
use mcp_auth_gateway.Start.Logging.{
  operator, Logger, Ancestors, configure_audit_logging, IsConfigured,
  configure_audit_logging-IsConfigured,
}
use mcp_auth_gateway.Audit.Line.{info, warning, emit, emit_stream_event}
use mcp_auth_gateway.Audit.Line.Printable.{emit-printable}

abbrev no_text : Reason → Str
no_text _ = []

-- A client's request id with a line break in it.
abbrev forged : AuditRecord
forged = record (new_record (codes "id") none) {
  client_request_id = some (b'x' ∷ 10 ∷ codes "{\"decision\":\"allowed\"}");
}

emit-printable_example :
    (all_printable (emit no_text (codes "1.25") false forged).1 ≡ true)
    × (all_printable (emit_stream_event no_text (codes "1.25") false completed 7 forged).1 ≡ true)
unfolding all_printable
emit-printable_example = emit-printable no_text (codes "1.25") refl false forged completed 7

-- The logger as `logging.getLogger` first makes it.
abbrev untouched : Logger
untouched = record { handlers = []; level = 0; propagate = true }

-- A logger that somebody above has set up to write everything to a file.
abbrev above : Ancestors
above = record { handlers = record { sink = operator 1; level = 0 } ∷ []; level = 10 }

configure_audit_logging-IsConfigured_example :
    IsConfigured above
      ((info, codes "{}") ∷ (warning, codes "{}") ∷ [])
      untouched
      (configure_audit_logging untouched)
configure_audit_logging-IsConfigured_example =
    configure_audit_logging-IsConfigured above ((info, codes "{}") ∷ (warning, codes "{}") ∷ [])
      untouched
