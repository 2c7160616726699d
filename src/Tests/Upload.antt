-- ===== src/Tests/Upload.antt =====
-- An upload step at a small annual file, with a cloud that has the file.
use mcp_yandex_cloud_infra.Prelude.{
  ℕ, suc, ◌+◌, ◌≤◌, ◌≡◌, ◌⊎◌, inl, refl, min, String, true, false, none, some, [], ◌∷◌, nat_eq,
  string_eq, pair_eq, streq_iff,
}
use mcp_yandex_cloud_infra.Dict.{lookup}
use mcp_yandex_cloud_infra.Json.{obj, field, end, str}
use mcp_yandex_cloud_infra.Finance.Csv.{Library}
use mcp_yandex_cloud_infra.Queue.Telemetry.{no_telemetry}
use mcp_yandex_cloud_infra.Queue.State.{
  Job, Finalize, upload_annual, no_upload, queued, download, World, Clock, reply, load,
}
use mcp_yandex_cloud_infra.Queue.Finalize.{Ids}
use mcp_yandex_cloud_infra.Upload.Remote.{Remote, value, Promotion, send_bytes, Failure}
use mcp_yandex_cloud_infra.Upload.Session.{upload_chunk, last_byte}
use mcp_yandex_cloud_infra.Upload.Step.{upload_step, target, delay_after}
use mcp_yandex_cloud_infra.Upload.Chunk.{retry_delay}
use mcp_yandex_cloud_infra.Queue.Waiting.{ceil_seconds}
use mcp_yandex_cloud_infra.Upload.Worker.{memory_of}
use mcp_yandex_cloud_infra.Upload.Sound.{AllJustified, IsMarked, IsCommitted, IsRescheduled}
use mcp_yandex_cloud_infra.Upload.Logic.{Lands}
use mcp_yandex_cloud_infra.Upload.Once.{IsSentOnce, base_delay, chunk_is-SentOnce, retry_is_bounded}
use mcp_yandex_cloud_infra.Upload.Verified.{
  result, goal, requests_are-AllJustified, commit_is-Verified, promotion_is-Saved,
  upload_keeps_jobs,
}
use mcp_yandex_cloud_infra.Upload.Agrees.{PlainUploads, resumable_agrees}
use mcp_yandex_cloud_infra.Tests.Data.{files}
use mcp_yandex_cloud_infra.Tests.Queue.{setup}

abbrev digest : String
digest = "aaaaaaaaaaaaaaaaaaaaaaaaaaaaaaaaaaaaaaaaaaaaaaaaaaaaaaaaaaaaaaaa"

-- Every file has one hash.
abbrev hashed : Library
hashed = record files { sha256 = λ b. digest }

-- A cloud that counts its requests; the session is complete, and the file is as it should be.
abbrev drive : Remote hashed
drive = record {
  Cloud = ℕ;
  put = λ uri body n. (
    some (record {
      status_code = 200;
      range_header = "";
      body = some (obj (field "id" (str "f1") end));
    }),
    suc n,
  );
  drive_folder = λ parts n. (value "weekly", suc n);
  find_child = λ parent name n. (value none, suc n);
  metadata = λ id n.
      (value (record { id = id; name = "staged"; size = some 2; sha256_checksum = digest }), suc n);
  resumable_start = λ parent name total n. (value ("uri", "f1"), suc n);
  promote_verified = λ p n. (
    value (record {
      file = record {
        id = p.file_id;
        name = p.canonical_name;
        size = some p.expected_bytes;
        sha256_checksum = p.expected_sha256;
      };
      previous_file_trashed = true;
    }),
    suc n,
  );
  store = λ call n. (value tt, suc n);
  listed_size = λ file. some (hashed.size file);
  slice = λ start end file. file;
  urlparse = λ s. record {
    scheme = "https";
    hostname = "www.googleapis.com";
    port = none;
    username = none;
    password = none;
    path = "/upload/drive/v3";
  };
  strip = λ s. s;
  lower = λ s. s;
  starts_with = λ prefix s. true;
  shown = λ v. "f1";
  first_twelve = λ s. "aaaaaaaaaaaa";
  first_thousand = λ s. s;
  range_end = λ s. none;
  retry_after = λ p. 0;
  digest_byte = λ id n. 7;
  correlation_id = λ id report. id;
}

abbrev clock : Clock
clock = record { time = 1000; utc = "now" }

abbrev ids : Ids
ids = record {
  candidate = λ j. "candidate";
  annual = λ c y. "annual";
  annual_name = λ c y. "A.csv";
}

abbrev state : Finalize
state = record {
  report_id = 7;
  phase = upload_annual;
  report_rows = 1;
  annual_rows = 1;
  annual_bytes = 2;
  annual_sha256 = digest;
  ingested_at = "then";
  annual_object_id = "";
  resumable_upload = record no_upload { session_uri = "uri"; offset = 1 };
  resumable_upload_verified = none;
  telemetry = no_telemetry;
}

abbrev job : Job
job = record {
  job_id = "j";
  cabinet = "A";
  year = 7;
  token_type = "base";
  status = queued;
  phase = download;
  discovery_offset = 0;
  fragments = [];
  report_index = 0;
  current_rrd_id = 0;
  provider_calls = 0;
  completed_report_ids = [];
  last_retry_after = 0;
  last_error = none;
  finalize = some state;
  last_telemetry = none;
  created_at = "then";
  updated_at = "then";
}

abbrev candidate : hashed.Bytes
candidate = ("rrdId" ∷ [], ("1" ∷ []) ∷ [])

abbrev world : World hashed
world = record {
  jobs = ("j", job) ∷ [];
  due = ("j", 0) ∷ [];
  registry = none;
  annual = [];
  staging = [];
  candidates = ("j", candidate) ∷ [];
  requests = [];
}

-- The step promotes the file.
promotes :
    (result drive clock ids (some 4) job state world 0).0
    ≡ value (reply queued "report_annual_uploaded_resumable")
unfolding upload_step lookup
promotes = refl

requests_are-AllJustified_example :
    AllJustified drive
      (goal drive clock ids (some 4) job state world 0)
      (lookup "j" world.candidates)
      (result drive clock ids (some 4) job state world 0).1.log
requests_are-AllJustified_example =
    requests_are-AllJustified drive clock ids (some 4) job state world 0 refl

commit_is-Verified_example :
    ((result drive clock ids (some 4) job state world 0).1.finalize.phase ≡ upload_annual)
    ⊎ IsCommitted drive clock
        (goal drive clock ids (some 4) job state world 0)
        job
        world
        (result drive clock ids (some 4) job state world 0).1
commit_is-Verified_example = commit_is-Verified drive clock ids (some 4) job state world 0 refl

abbrev promotion : Promotion
unfolding target
promotion = record {
  parent_id = "weekly";
  file_id = "f1";
  staging_name = (goal drive clock ids (some 4) job state world 0).staging_name;
  canonical_name = "A.csv";
  expected_bytes = 2;
  expected_sha256 = digest;
  previous_file_id = "";
}

promotion_is-Saved_example :
    (k : Job) × ((g : Finalize) × ((load "j"
            (result drive clock ids (some 4) job state world 0).1.world
          ≡ some k)
        × (k.finalize ≡ some g)
        × IsMarked promotion g))
unfolding upload_step lookup promotion
promotion_is-Saved_example =
    promotion_is-Saved drive clock ids (some 4) job state world 0 promotion refl (inl refl)

upload_keeps_jobs_example :
    Lands
      (λ _. IsRescheduled drive clock (goal drive clock ids (some 4) job state world 0) job world)
      (λ m. m.world.due ≡ world.due)
      (result drive clock ids (some 4) job state world 0)
    × (load "k" (result drive clock ids (some 4) job state world 0).1.world ≡ load "k" world)
upload_keeps_jobs_example =
    upload_keeps_jobs drive clock ids (some 4) job state world 0 "k" refl
      (λ q. let e : false ≡ true = (streq_iff "j" "k").1 q in cc e)

chunk_is-SentOnce_example :
    IsSentOnce drive "uri"
      (send_bytes 0 (last_byte 0 2 2) 2 candidate)
      2
      []
      (upload_chunk drive "uri" 0 2 candidate (memory_of drive job state world 0)).1.log
chunk_is-SentOnce_example =
    chunk_is-SentOnce drive "uri" 0 2 candidate (memory_of drive job state world 0)

abbrev throttled : Failure
throttled = record { message = "HTTP 429"; retryable = true; retry_after = 400000 }

retry_is_bounded_example :
    (base_delay 3 ≤ retry_delay drive.digest_byte "j" 3)
    × (5 ≤ retry_delay drive.digest_byte "j" 3)
    × (retry_delay drive.digest_byte "j" 3 ≤ min 300 (base_delay 3 + 5))
    × (ceil_seconds throttled.retry_after ≤ delay_after drive clock "j" 3 throttled)
retry_is_bounded_example = retry_is_bounded drive clock "j" 3 throttled

resumable_agrees_example :
    PlainUploads setup clock ids job state world
      (lookup ("A", 7) (result drive clock ids (some 4) job state world 0).1.world.annual)
unfolding upload_step lookup
resumable_agrees_example =
    resumable_agrees setup drive clock ids (some 4) job state world 0 refl refl refl
