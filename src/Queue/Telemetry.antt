-- ===== src/Queue/Telemetry.antt =====
-- app/core/archive_finalize_telemetry.py. A telemetry dict is its scalar entries and its events. The
-- writes of `finalize["telemetry"]` and `state["finalize"]` are made by the callers of the model,
-- which store what these functions return.
pub mod Capped
use mcp_yandex_cloud_infra.Prelude.{
  ℕ, ◌+◌, ◌-◌, String, Bool, true, false, ◌&&◌, not, Option, none, some, List, [], ◌∷◌, ◌++◌,
  length, drop, keep_if, nat_beq, string_eq, ◌==◌, if◌then◌else◌,
}
use mcp_yandex_cloud_infra.Dict.{Dict, lookup, insert}
use mcp_yandex_cloud_infra.Json.{Json, null, bool, num, str, arr, obj}
use mcp_yandex_cloud_infra.Errors.{is_in}
use mcp_yandex_cloud_infra.Paginate.Page.{set_default}

abbrev pub max_events : ℕ
max_events = 40

abbrev pub public_keys : List String
public_keys =
    "candidate_object_id" ∷ "candidate_bytes" ∷ "candidate_sha256" ∷ "staging_file_id"
    ∷ "canonical_file_id" ∷ "previous_canonical_file_id" ∷ "resumable_offset" ∷ "transition"
    ∷ "retry_count" ∷ "canonical_state" ∷ []

pub record Telemetry : Type 0 where
  pub entries : Dict String Json
  pub events : List (Dict String Json)

abbrev pub no_telemetry : Telemetry
no_telemetry = record { entries = []; events = [] }

-- What the functions read of the job and of its finalize state.
pub record Subject : Type 0 where
  pub job_id : String
  pub report_id : ℕ
  pub phase : String
  pub annual_bytes : ℕ
  pub annual_sha256 : String

abbrev put_text : Option String → Dict String Json → Dict String Json
put_text none d = d
put_text (some s) d = if s == "" then d else insert "candidate_object_id" (str s) d

-- `correlation_id` is `_correlation_id`, a hash of the job and the report.
unfoldable pub ensure_finalize_telemetry :
    (String → ℕ → String) → Subject → Option String → Telemetry → Telemetry
unfolding insert set_default
ensure_finalize_telemetry correlation_id s candidate t =
    let a = set_default "correlation_id" (str (correlation_id s.job_id s.report_id)) t.entries in
    let b = insert "report_id" (num s.report_id) (insert "job_id" (str s.job_id) a) in
    let c = insert "candidate_bytes" (num s.annual_bytes) (insert "phase" (str s.phase) b) in
    record t { entries = put_text candidate (insert "candidate_sha256" (str s.annual_sha256) c) }

-- A text that is not blank is written; `strip` is `str.strip`.
abbrev put_stripped : (String → String) → String → String → Dict String Json → Dict String Json
put_stripped strip key text d = if strip text == "" then d else insert key (str (strip text)) d

-- What the function reads of `finalize["resumable_upload"]`.
pub record UploadSubject : Type 0 where
  pub target_file_id : String
  pub staged_file_id : String
  pub previous_canonical_file_id : String
  pub offset : ℕ

unfoldable pub sync_resumable_telemetry :
    (String → ℕ → String)
    → (String → String)
    → Subject
    → UploadSubject
    → Option String
    → Telemetry
    → Telemetry
unfolding insert ensure_finalize_telemetry
sync_resumable_telemetry correlation_id strip s u candidate t =
    let ensured = ensure_finalize_telemetry correlation_id s candidate t in
    let a = put_stripped strip "staging_file_id" u.target_file_id ensured.entries in
    let b = put_stripped strip "staging_file_id" u.staged_file_id a in
    let c = put_stripped strip "previous_canonical_file_id" u.previous_canonical_file_id b in
    record ensured {
      entries = insert "phase" (str s.phase) (insert "resumable_offset" (num u.offset) c);
    }

-- `value is not None and value != ""`
abbrev is_given : Json → Bool
is_given null = false
is_given (str s) = not (s == "")
is_given _ = true

-- The fields of an event that are made public.
abbrev pub safe_fields : Dict String Json → Dict String Json
safe_fields = keep_if (λ e. is_in e.0 public_keys)

unfoldable pub put_given : Dict String Json → Dict String Json → Dict String Json
unfolding insert
put_given [] d = d
put_given ((k, v) ∷ fields) d = put_given fields (if is_given v then insert k v d else d)

-- `**safe_fields` over the fixed entries of the event.
unfoldable pub put_all : Dict String Json → Dict String Json → Dict String Json
unfolding insert
put_all [] d = d
put_all ((k, v) ∷ fields) d = put_all fields (insert k v d)

-- `events[-MAX_EVENTS:]`
unfoldable pub last_events : List (Dict String Json) → List (Dict String Json)
last_events events = drop (length events - max_events) events

unfoldable pub record_finalize_event :
    (String → ℕ → String) → String → Subject → String → Dict String Json → Telemetry → Telemetry
unfolding ensure_finalize_telemetry put_given put_all last_events
record_finalize_event correlation_id now s event fields t =
    let ensured = ensure_finalize_telemetry correlation_id s none t in
    let safe = safe_fields fields in
    let item =
      put_all safe (("at_utc", str now) ∷ ("event", str event) ∷ ("phase", str s.phase) ∷ []) in
    let entries = insert "phase" (str s.phase) (put_given safe ensured.entries) in
    record {
      entries = insert "updated_at_utc" (str now) (insert "last_event" (str event) entries);
      events = last_events (t.events ++ item ∷ []);
    }

abbrev is_blank : Telemetry → Bool
is_blank t = nat_beq (length t.entries) 0 && nat_beq (length t.events) 0

abbrev shown_keys : List String
shown_keys =
    "correlation_id" ∷ "job_id" ∷ "report_id" ∷ "phase" ∷ "last_event" ∷ "updated_at_utc"
    ∷ public_keys

abbrev public_entries : Telemetry → Option Telemetry
public_entries t =
    if is_blank t
    then none
    else some (record t { entries = keep_if (λ e. is_in e.0 shown_keys) t.entries })

abbrev or_blank : Option Telemetry → Telemetry
or_blank none = no_telemetry
or_blank (some t) = t

-- The telemetry of the running finalize stage, else that of the last one, without other keys.
unfoldable pub public_finalize_telemetry : Option Telemetry → Option Telemetry → Option Telemetry
public_finalize_telemetry current last =
    if is_blank (or_blank current)
    then public_entries (or_blank last)
    else public_entries (or_blank current)
