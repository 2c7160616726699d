-- ===== src/Upload/Requests.antt =====
-- The requests of app/core/archive_drive_resumable.py and of the bridge, in an early memory.
use mcp_yandex_cloud_infra.Prelude.{
  ℕ, ◌+◌, ◌-◌, ◌%◌, ◌≤◌, ◌≡◌, inl, inr, refl, String, Bool, true, false, not, ◌&&◌, ◌||◌, Option,
  none, some, ◌∷◌, In, nat_eq, string_eq, arith, ◌==◌, leb,
}
use mcp_yandex_cloud_infra.Dict.{lookup}
use mcp_yandex_cloud_infra.Finance.Csv.{Library}
use mcp_yandex_cloud_infra.Queue.State.{Job, World, Clock}
use mcp_yandex_cloud_infra.Upload.Remote.{
  Remote, Memory, Promotion, Put, ask_status, send_bytes, Exchange, requested, described,
  promotion_sent, Outcome, value, storage_error, runtime_error, Response,
}
use mcp_yandex_cloud_infra.Upload.Act.{Act, give, refuse, fail_with, on_cloud}
use mcp_yandex_cloud_infra.Upload.Session
use mcp_yandex_cloud_infra.Upload.Session.{
  Progress, UploadSession, is_session_url, validate_session_uri, request, confirmed_offset,
  query_status, upload_chunk, start_resumable_session, start_session, chunk_granularity, last_byte,
}
use mcp_yandex_cloud_infra.Upload.Promote.{file_metadata}
use mcp_yandex_cloud_infra.Upload.Finish.{Target}
use mcp_yandex_cloud_infra.Upload.Logic.{
  Lands, Runs, give-Runs, refuse-Runs, fail-Runs, if_Runs, bind-Runs, change-Runs, cloud-Runs,
  if_Lands,
}
use mcp_yandex_cloud_infra.Upload.Sound.{IsRange, IsJustified, AllJustified, IsSame, IsEarly}

module _ {lib : Library} (r : Remote lib) (clock : Clock) (t : Target) (j : Job)
    (w : World lib) where
  -- An operation that is early before and after.
  abbrev pub StaysEarly : {A : Type 0} → Act lib r.Cloud A → Type 0
  StaysEarly act =
      Runs (IsEarly r clock t j w) act (λ _. IsEarly r clock t j w) (IsEarly r clock t j w)

  pub cloud-StaysEarly : {A : Type 0} (f : r.Cloud → Outcome A × r.Cloud) → StaysEarly (on_cloud f)
  unfolding IsEarly IsSame
  cloud-StaysEarly f = cloud-Runs f (λ m c p. p) (λ m p. p)

  pub give-StaysEarly : {A : Type 0} (a : A) → StaysEarly (give a)
  give-StaysEarly a = give-Runs a (λ m p. p)

  pub refuse-StaysEarly :
      {A : Type 0} (e : String) (b : Bool) (n : ℕ) → StaysEarly {A = A} (refuse e b n)
  refuse-StaysEarly e b n = refuse-Runs e b n (λ m p. p)

  pub fail-StaysEarly : {A : Type 0} (e : String) → StaysEarly {A = A} (fail_with e)
  fail-StaysEarly e = fail-Runs e (λ m p. p)

  -- One more exchange, that is justified and no promotion.
  pub note-Early :
      (e : Exchange lib.Bytes) (m : Memory lib r.Cloud)
      → IsJustified r t (lookup j.job_id w.candidates) e m.log
      → ((p : Promotion) → ¬ (e ≡ promotion_sent p))
      → IsEarly r clock t j w m
      → IsEarly r clock t j w (record m { log = e ∷ m.log })
  unfolding IsEarly IsSame AllJustified
  note-Early e m h n (s, a, p, q, d) =
      (s, (h, a), p, (λ k. elim [ inl i ↦ n k i | inr i ↦ q k i ]), d)

  validate-Runs :
      (uri : String)
      → Runs
          (IsEarly r clock t j w)
          (validate_session_uri r uri)
          (λ u m. (is_session_url r u ≡ true) × IsEarly r clock t j w m)
          (IsEarly r clock t j w)
  unfolding validate_session_uri
  validate-Runs uri =
      if_Runs (is_session_url r (r.strip uri)) (λ q. give-Runs _ (λ m p. (q, p)))
        (λ q. refuse-Runs _ _ _ (λ m p. p))

  answered : (o : Option Response) → StaysEarly (Session.response_or_error r o)
  answered none = refuse-StaysEarly _ _ _
  answered (some p) = give-StaysEarly p

  pub request-StaysEarly :
      (uri : String) (body : Put lib.Bytes)
      → IsRange r t (lookup j.job_id w.candidates) body
      → StaysEarly (request r uri body)
  unfolding request IsJustified
  request-StaysEarly uri body h = bind-Runs _ (validate-Runs uri) (λ url.
      change-Runs (IsEarly r clock t j w) _
        (λ m (u, p). note-Early (requested url body) m (u, h) (λ q e. cc e) p)
        (bind-Runs _ (cloud-StaysEarly (Session.answer_of r url body)) answered))

  range_offset-StaysEarly : (o : Option ℕ) → StaysEarly (Session.range_offset r o)
  range_offset-StaysEarly none = refuse-StaysEarly _ _ _
  range_offset-StaysEarly (some n) = give-StaysEarly _

  confirmed-StaysEarly : (p : Response) → StaysEarly (confirmed_offset r p)
  unfolding confirmed_offset
  confirmed-StaysEarly p =
      if_Runs (r.strip p.range_header == "") (λ q. give-StaysEarly _)
        (λ q. range_offset-StaysEarly (r.range_end (r.strip p.range_header)))

  progress-StaysEarly : (p : Response) → StaysEarly (Session.status_progress r p)
  progress-StaysEarly p =
      if_Runs (Session.is_done r p) (λ q. give-StaysEarly _)
        (λ q.
          if_Runs (p.status_code == 308)
            (λ q. bind-Runs _ (confirmed-StaysEarly p) (λ n. give-StaysEarly _))
            (λ q.
              if_Runs (Session.session_must_restart r p) (λ q. give-StaysEarly _)
                (λ q. refuse-StaysEarly _ _ _)))

  pub query-StaysEarly : (uri : String) → StaysEarly (query_status r uri t.expected_bytes)
  unfolding query_status IsRange
  query-StaysEarly uri =
      bind-Runs _ (request-StaysEarly uri (ask_status t.expected_bytes) refl) progress-StaysEarly

  chunk_progress-StaysEarly :
      (uri : String) (p : Response) → StaysEarly (Session.chunk_progress r uri t.expected_bytes p)
  chunk_progress-StaysEarly uri p =
      if_Runs (Session.is_done r p) (λ q. give-StaysEarly _)
        (λ q.
          if_Runs (p.status_code == 308)
            (λ q. bind-Runs _ (confirmed-StaysEarly p) (λ n. give-StaysEarly _))
            (λ q.
              if_Runs (Session.is_ambiguous p.status_code) (λ q. query-StaysEarly uri)
                (λ q.
                  if_Runs (Session.session_must_restart r p) (λ q. give-StaysEarly _)
                    (λ q.
                      if_Runs
                        (Session.is_backoff_only p.status_code || Session.is_rate_limit_403 r p)
                        (λ q. refuse-StaysEarly _ _ _) (λ q. refuse-StaysEarly _ _ _)))))

  after_chunk-Lands :
      (uri : String) (o : Outcome Response × Memory lib r.Cloud)
      → Lands (λ _. IsEarly r clock t j w) (IsEarly r clock t j w) o
      → Lands
          (λ _. IsEarly r clock t j w)
          (IsEarly r clock t j w)
          (Session.after_chunk r uri t.expected_bytes o)
  unfolding Lands
  after_chunk-Lands uri (value p, m) h = (chunk_progress-StaysEarly uri p).runs m h
  after_chunk-Lands uri (storage_error e, m) h =
      if_Lands _ _ e.retryable _ _ (λ q. (query-StaysEarly uri).runs m h) (λ q. h)
  after_chunk-Lands uri (runtime_error e, m) h = h

  chunk_is-Range :
      (offset end : ℕ) (file chunk : lib.Bytes)
      → lookup j.job_id w.candidates ≡ some file
      → chunk ≡ r.slice offset end file
      → lib.size chunk ≡ end - offset
      → end ≤ t.expected_bytes
      → (lib.size chunk == 0) ≡ false
      → leb t.expected_bytes offset ≡ false
      → not (lib.size chunk == last_byte offset t.expected_bytes (lib.size chunk) - offset + 1)
        ≡ false
      → IsRange r t (lookup j.job_id w.candidates) (
          send_bytes offset
            (last_byte offset t.expected_bytes (lib.size chunk))
            t.expected_bytes
            chunk)
  unfolding IsRange
  chunk_is-Range offset end file chunk f c n l a b d =
      let last = last_byte offset t.expected_bytes (lib.size chunk) in
      let e : last + 1 ≡ end = ground arith in
      (refl, ground arith, ground arith, (file, (f, rw e c)))

  -- A chunk that is read from the candidate at the offset.
  pub upload_chunk-StaysEarly :
      (uri : String) (offset end : ℕ) (file chunk : lib.Bytes)
      → lookup j.job_id w.candidates ≡ some file
      → chunk ≡ r.slice offset end file
      → lib.size chunk ≡ end - offset
      → end ≤ t.expected_bytes
      → StaysEarly (upload_chunk r uri offset t.expected_bytes chunk)
  unfolding upload_chunk Lands IsRange
  upload_chunk-StaysEarly uri offset end file chunk f c n l = record {
    runs = λ m p.
        let last = last_byte offset t.expected_bytes (lib.size chunk) in
        if_Lands _ _ (lib.size chunk == 0) _ _ (λ q. p)
          (λ a.
            if_Lands _ _ (leb t.expected_bytes offset) _ _ (λ q. p)
              (λ b.
                if_Lands _ _ (not (lib.size chunk == last - offset + 1)) _ _ (λ q. p)
                  (λ d.
                    if_Lands _ _
                      (not (last + 1 == t.expected_bytes)
                        && not (lib.size chunk % chunk_granularity == 0))
                      _ _ (λ q. p)
                      (λ q. after_chunk-Lands uri _ (
                        (request-StaysEarly uri _
                            (chunk_is-Range offset end file chunk f c n l a b d)).runs
                          m p)))));
  }

  opened-StaysEarly :
      (parent_id name : String) (total : ℕ)
      → StaysEarly (start_resumable_session r parent_id name total)
  unfolding start_resumable_session
  opened-StaysEarly parent_id name total =
      bind-Runs _ (cloud-StaysEarly (r.resumable_start parent_id name total)) (λ answer.
        if_Runs (r.strip answer.0 == "") (λ q. refuse-StaysEarly _ _ _) (λ q. give-StaysEarly _))

  pub start_session-StaysEarly :
      (parent_id name : String) (total : ℕ) → StaysEarly (start_session r parent_id name total)
  unfolding start_session
  start_session-StaysEarly parent_id name total =
      if_Runs (total == 0) (λ q. refuse-StaysEarly _ _ _)
        (λ q.
          bind-Runs _ (opened-StaysEarly parent_id name total)
            (λ opened. bind-Runs _ (validate-Runs opened.uri) (λ uri. give-Runs _ (λ m (u, p). p))))

  -- The description that is given stands at the head of the log.
  pub file_metadata-Runs :
      (file_id : String)
      → Runs
          (IsEarly r clock t j w)
          (file_metadata r file_id)
          (λ meta m. In (described file_id meta) m.log × IsEarly r clock t j w m)
          (IsEarly r clock t j w)
  unfolding file_metadata IsJustified
  file_metadata-Runs file_id = bind-Runs _ (cloud-StaysEarly (r.metadata file_id)) (λ meta.
      if_Runs (meta.id == "") (λ q. refuse-Runs _ _ _ (λ m p. p))
        (λ q.
          change-Runs (λ m. In (described file_id meta) m.log × IsEarly r clock t j w m) _
            (λ m p. (inl refl, note-Early (described file_id meta) m tt (λ k e. cc e) p))
            (give-Runs meta (λ n p. p))))
