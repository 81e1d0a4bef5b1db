-- ===== src/Export/Job.antt =====
-- src/sma/phase6_import_to_sabt/models.py and errors.py: export jobs and what ends them, with the
-- changes that `_run_job` makes to a job. Times are whole microseconds. The manifest is whatever the
-- exporter returns, and the Persian message of an error is left out: its code determines it.
use student_mentor_allocatio.Base.{
  ℕ, Bool, true, false, ◌||◌, Option, none, some, [], ◌∷◌, ◌++◌, if◌then◌else◌,
}
use student_mentor_allocatio.Base.Int.{ℤ}
use student_mentor_allocatio.Base.Text.{Text, codes, text_eq}
use student_mentor_allocatio.Python.{Unicode}
use student_mentor_allocatio.Retry.{Call, gave, raised}

pub data ExportJobStatus : Type 0 where
  pending : ExportJobStatus
  running : ExportJobStatus
  success : ExportJobStatus
  failed : ExportJobStatus

-- `ExportJobStatus.value`
abbrev pub status_value : ExportJobStatus → Text
status_value ExportJobStatus.pending = codes "PENDING"
status_value ExportJobStatus.running = codes "RUNNING"
status_value ExportJobStatus.success = codes "SUCCESS"
status_value ExportJobStatus.failed = codes "FAILED"

-- The two codes that `_run_job` uses.
pub data ExportErrorCode : Type 0 where
  export_validation_error : ExportErrorCode
  export_io_error : ExportErrorCode

-- `error_payload`
pub record ErrorPayload : Type 0 where
  pub error_code : ExportErrorCode
  pub detail : Text

-- The exceptions that `_run_job` tells apart, with their text or the name of their class.
pub data ExportException : Type 0 where
  validation : Text → ExportException
  export_io : Text → ExportException
  retry_exhausted : Text → ExportException
  transient : Text → ExportException
  other : Text → ExportException

-- `isinstance(exc, TRANSIENT_ERRORS)`
abbrev pub is_transient : ExportException → Bool
is_transient (ExportException.transient message) = true
is_transient _ = false

abbrev pub payload_of : ExportException → ErrorPayload
payload_of (ExportException.validation message) = record {
  error_code = ExportErrorCode.export_validation_error;
  detail = message;
}
payload_of (ExportException.export_io name) = record {
  error_code = ExportErrorCode.export_io_error;
  detail = name;
}
payload_of (ExportException.retry_exhausted name) = record {
  error_code = ExportErrorCode.export_io_error;
  detail = name;
}
payload_of (ExportException.transient message) = record {
  error_code = ExportErrorCode.export_io_error;
  detail = message;
}
payload_of (ExportException.other name) = record {
  error_code = ExportErrorCode.export_io_error;
  detail = name;
}

pub record ExportDeltaWindow : Type 0 where
  pub created_at_watermark : ℕ
  pub id_watermark : ℤ

pub record ExportFilters : Type 0 where
  pub year : ℤ
  pub center : Option ℤ
  pub delta : Option ExportDeltaWindow

pub record ExportOptions : Type 0 where
  pub chunk_size : ℤ
  pub include_bom : Bool
  pub newline : Text
  pub excel_mode : Bool
  pub output_format : Text

abbrev or_xlsx : Text → Text
or_xlsx [] = codes "xlsx"
or_xlsx (c ∷ s) = c ∷ s

-- `ExportOptions(...)` with its `__post_init__`; `none` is the ValueError.
unfoldable pub make_options : Unicode → ExportOptions → Option ExportOptions
make_options u options =
    let normalized = u.lower (or_xlsx options.output_format) in
    if text_eq normalized (codes "csv") || text_eq normalized (codes "xlsx")
    then some (record options { output_format = normalized })
    else none

pub record ExportSnapshot : Type 0 where
  pub marker : Text
  pub created_at : ℕ

-- The arguments of `submit`.
pub record Submission : Type 0 where
  pub filters : ExportFilters
  pub options : ExportOptions
  pub idempotency_key : Text
  pub namespace : Text
  pub correlation_id : Text

pub record ExportJob (M : Type 0) : Type 0 where
  pub id : Text
  pub status : ExportJobStatus
  pub filters : ExportFilters
  pub options : ExportOptions
  pub snapshot : ExportSnapshot
  pub namespace : Text
  pub correlation_id : Text
  pub queued_at : ℕ
  pub started_at : Option ℕ
  pub finished_at : Option ℕ
  pub manifest : Option M
  pub error : Option ErrorPayload

module _ {M : Type 0} where
  -- The job that `submit` builds, with the id that it draws and the time that it reads.
  abbrev pub new_job : Text → ℕ → Submission → ExportJob M
  new_job id now q = record {
    id = id;
    status = ExportJobStatus.pending;
    filters = q.filters;
    options = q.options;
    snapshot = record { marker = codes "snapshot-" ++ id; created_at = now };
    namespace = q.namespace;
    correlation_id = q.correlation_id;
    queued_at = now;
    started_at = none;
    finished_at = none;
    manifest = none;
    error = none;
  }

  abbrev pub start : ℕ → ExportJob M → ExportJob M
  start now job = record job { status = ExportJobStatus.running; started_at = some now }

  -- What `_run_job` makes of the end of its attempts.
  abbrev pub settle : Call M ExportException → ℕ → ExportJob M → ExportJob M
  settle (gave manifest) now job = record job {
    status = ExportJobStatus.success;
    finished_at = some now;
    manifest = some manifest;
  }
  settle (raised exc) now job = record job {
    status = ExportJobStatus.failed;
    finished_at = some now;
    error = some (payload_of exc);
  }
