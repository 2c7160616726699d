-- ===== src/Upload/Once.antt =====
-- The requests of `upload_chunk` of app/core/archive_drive_resumable.py, and the delays of
-- `_retry_delay` of app/core/archive_resumable_worker.py.
use mcp_yandex_cloud_infra.Prelude.{
  ℕ, zero, suc, ◌+◌, ◌-◌, ◌*◌, ◌%◌, ◌^◌, ◌≤◌, ◌≡◌, ◌⊎◌, inl, inr, refl, sym, min, String, false,
  not, ◌&&◌, ◌||◌, Option, none, some, List, ◌∷◌, Bool-cases, nat_eq, string_eq, arith, ◌==◌, leb,
}
use mcp_yandex_cloud_infra.Finance.Csv.{Library}
use mcp_yandex_cloud_infra.Queue.Waiting.{ceil_seconds}
use mcp_yandex_cloud_infra.Queue.State.{Clock}
use mcp_yandex_cloud_infra.Upload.Remote.{
  Remote, Memory, Failure, Put, ask_status, send_bytes, Exchange, requested, Outcome, value,
  storage_error, runtime_error, Response,
}
use mcp_yandex_cloud_infra.Upload.Act.{Act}
use mcp_yandex_cloud_infra.Upload.Session
use mcp_yandex_cloud_infra.Upload.Session.{
  Progress, is_session_url, validate_session_uri, request, confirmed_offset, query_status,
  upload_chunk, chunk_granularity, last_byte,
}
use mcp_yandex_cloud_infra.Upload.Step.{delay_after}
use mcp_yandex_cloud_infra.Upload.Chunk.{retry_delay}
use mcp_yandex_cloud_infra.Upload.Logic.{
  Lands, Runs, give-Runs, refuse-Runs, if_Runs, if_Lands, landed, Lands-weaken, bind-Runs,
  errors-Runs,
}

abbrev pub base_delay : ℕ → ℕ
base_delay n = min 300 (5 * 2 ^ min (n - 1) 6)

power_bounds : (k : ℕ) → 1 ≤ 2 ^ k
power_bounds zero = omega arith
power_bounds (suc k) = omega (arith, power_bounds k)

-- The wait before a retry is at least five seconds and at most 300; it is the doubling base, cut at
-- 300, or at most five seconds more; and a longer wait that the server asked for is kept.
pub retry_is_bounded :
    {lib : Library} (r : Remote lib) (clock : Clock) (job_id : String) (n : ℕ) (e : Failure)
    → (base_delay n ≤ retry_delay r.digest_byte job_id n)
      × (5 ≤ retry_delay r.digest_byte job_id n)
      × (retry_delay r.digest_byte job_id n ≤ min 300 (base_delay n + 5))
      × (ceil_seconds e.retry_after ≤ delay_after r clock job_id n e)
unfolding retry_delay
retry_is_bounded r clock job_id n e =
    let h = power_bounds (min (n - 1) 6) in
    (omega arith, omega (arith, h), omega arith, omega arith)

module _ {lib : Library} (r : Remote lib) (uri : String) where
  abbrev Log : Type 0
  Log = List (Exchange lib.Bytes)

  -- The exchange that a request of the session leaves.
  abbrev pub request_of : Put lib.Bytes → Exchange lib.Bytes
  request_of body = requested (r.strip uri) body

  Same : Log → Memory lib r.Cloud → Type 0
  Same log m = m.log ≡ log

  -- A response is one of a request that was made; an error that may be retried, too.
  Sent : Put lib.Bytes → Log → Outcome Response × Memory lib r.Cloud → Type 0
  Sent body log (value p, m) = m.log ≡ request_of body ∷ log
  Sent body log (storage_error e, m) =
      (m.log ≡ request_of body ∷ log) ⊎ ((m.log ≡ log) × (e.retryable ≡ false))
  Sent body log (runtime_error e, m) = ⊥

  answered :
      (body : Put lib.Bytes) (log : Log) (o : Option Response) (m : Memory lib r.Cloud)
      → m.log ≡ request_of body ∷ log
      → Sent body log (Session.response_or_error r o m)
  unfolding Sent
  answered body log none m e = inl e
  answered body log (some p) m e = e

  request-Sent :
      (body : Put lib.Bytes) (m : Memory lib r.Cloud) → Sent body m.log (request r uri body m)
  unfolding request validate_session_uri Sent
  request-Sent body m = elim (Bool-cases (is_session_url r (r.strip uri))) [
    | inl e ↦ rw e (answered body m.log _ _ refl)
    | inr e ↦ rw e (inr (refl, refl))
  ]

  -- The log after a status query that was made, or refused.
  abbrev Asked : ℕ → Log → Memory lib r.Cloud → Type 0
  Asked total log m = (m.log ≡ log) ⊎ (m.log ≡ request_of (ask_status total) ∷ log)

  abbrev Keeps : {A : Type 0} → Log → Act lib r.Cloud A → Type 0
  Keeps log act = Runs (λ m. m.log ≡ log) act (λ _ m. m.log ≡ log) (λ m. m.log ≡ log)

  range-Keeps : (log : Log) (o : Option ℕ) → Keeps log (Session.range_offset r o)
  range-Keeps log none = refuse-Runs _ _ _ (λ m p. p)
  range-Keeps log (some n) = give-Runs _ (λ m p. p)

  confirmed-Keeps : (log : Log) (p : Response) → Keeps log (confirmed_offset r p)
  unfolding confirmed_offset
  confirmed-Keeps log p =
      if_Runs (r.strip p.range_header == "") (λ q. give-Runs _ (λ m p. p))
        (λ q. range-Keeps log (r.range_end (r.strip p.range_header)))

  status-Keeps : (log : Log) (p : Response) → Keeps log (Session.status_progress r p)
  status-Keeps log p =
      if_Runs (Session.is_done r p) (λ q. give-Runs _ (λ m p. p))
        (λ q.
          if_Runs (p.status_code == 308)
            (λ q. bind-Runs _ (confirmed-Keeps log p) (λ n. give-Runs _ (λ m p. p)))
            (λ q.
              if_Runs (Session.session_must_restart r p) (λ q. give-Runs _ (λ m p. p))
                (λ q. refuse-Runs _ _ _ (λ m p. p))))

  sent_log :
      (body : Put lib.Bytes) (log : Log) (o : Outcome Response × Memory lib r.Cloud)
      → Sent body log o
      → Lands
          (λ _ m. m.log ≡ request_of body ∷ log)
          (λ m. (m.log ≡ log) ⊎ (m.log ≡ request_of body ∷ log))
          o
  unfolding Sent Lands
  sent_log body log (value p, m) h = h
  sent_log body log (storage_error e, m) (inl h) = inr h
  sent_log body log (storage_error e, m) (inr (h, q)) = inl h
  sent_log body log (runtime_error e, m) h = absurd h

  request-Runs :
      (body : Put lib.Bytes) (log : Log)
      → Runs
          (λ m. m.log ≡ log)
          (request r uri body)
          (λ _ m. m.log ≡ request_of body ∷ log)
          (λ m. (m.log ≡ log) ⊎ (m.log ≡ request_of body ∷ log))
  request-Runs body log = record {
    runs = λ m p. sent_log body log _ (rw (sym p) (request-Sent body m));
  }

  query-Runs :
      (total : ℕ) (log : Log)
      → Runs (λ m. m.log ≡ log) (query_status r uri total) (λ _. Asked total log) (Asked total log)
  unfolding query_status
  query-Runs total log = bind-Runs _ (request-Runs (ask_status total) log) (λ p. record {
    runs = λ m h.
        Lands-weaken _ _ _ _ _ (λ a n q. inr q) (λ n q. inr q)
          ((status-Keeps (request_of (ask_status total) ∷ log) p).runs m h);
  })

  -- One request with the bytes, and then at most one status query.
  abbrev pub IsSentOnce : Put lib.Bytes → ℕ → Log → Log → Type 0
  IsSentOnce body total log after =
      (after ≡ log)
      ⊎ ((after ≡ request_of body ∷ log)
          ⊎ (after ≡ request_of (ask_status total) ∷ request_of body ∷ log))

  abbrev IsOnce : Put lib.Bytes → ℕ → Log → Memory lib r.Cloud → Type 0
  IsOnce body total log m = IsSentOnce body total log m.log

  -- Drive is asked only when the bytes may have arrived.
  queried-Lands :
      (body : Put lib.Bytes) (total : ℕ) (log : Log) (m : Memory lib r.Cloud)
      → m.log ≡ request_of body ∷ log
      → Lands (λ _. IsOnce body total log) (IsOnce body total log) (query_status r uri total m)
  queried-Lands body total log m h =
      Lands-weaken _ _ _ _ _ (λ a n. elim [ inl q ↦ inr (inl q) | inr q ↦ inr (inr q) ])
        (λ n. elim [ inl q ↦ inr (inl q) | inr q ↦ inr (inr q) ])
        ((query-Runs total (request_of body ∷ log)).runs m h)

  chunk_progress-Runs :
      (body : Put lib.Bytes) (total : ℕ) (log : Log) (p : Response)
      → Runs
          (λ m. m.log ≡ request_of body ∷ log)
          (Session.chunk_progress r uri total p)
          (λ _. IsOnce body total log)
          (IsOnce body total log)
  chunk_progress-Runs body total log p =
      if_Runs (Session.is_done r p) (λ q. give-Runs _ (λ m h. inr (inl h)))
        (λ q.
          if_Runs (p.status_code == 308)
            (λ q.
              bind-Runs _
                (errors-Runs (λ m h. inr (inl h)) (confirmed-Keeps (request_of body ∷ log) p))
                (λ n. give-Runs _ (λ m h. inr (inl h))))
            (λ q.
              if_Runs (Session.is_ambiguous p.status_code)
                (λ q. record { runs = queried-Lands body total log })
                (λ q.
                  if_Runs (Session.session_must_restart r p) (λ q. give-Runs _ (λ m h. inr (inl h)))
                    (λ q.
                      if_Runs
                        (Session.is_backoff_only p.status_code || Session.is_rate_limit_403 r p)
                        (λ q. refuse-Runs _ _ _ (λ m h. inr (inl h)))
                        (λ q. refuse-Runs _ _ _ (λ m h. inr (inl h)))))))

  after_chunk-Lands :
      (body : Put lib.Bytes) (total : ℕ) (log : Log) (o : Outcome Response × Memory lib r.Cloud)
      → Sent body log o
      → Lands
          (λ _. IsOnce body total log)
          (IsOnce body total log)
          (Session.after_chunk r uri total o)
  unfolding Sent Lands
  after_chunk-Lands body total log (value p, m) h = (chunk_progress-Runs body total log p).runs m h
  after_chunk-Lands body total log (storage_error e, m) (inl h) =
      if_Lands _ _ e.retryable _ _ (λ q. queried-Lands body total log m h) (λ q. inr (inl h))
  after_chunk-Lands body total log (storage_error e, m) (inr (h, n)) =
      if_Lands _ _ e.retryable _ _ (λ q. cc (q, n)) (λ q. inl h)
  after_chunk-Lands body total log (runtime_error e, m) h = absurd h

  upload_chunk-Lands :
      (offset total : ℕ) (chunk : lib.Bytes) (m : Memory lib r.Cloud)
      → let body = send_bytes offset (last_byte offset total (lib.size chunk)) total chunk in
        Lands
          (λ _. IsOnce body total m.log)
          (IsOnce body total m.log)
          (upload_chunk r uri offset total chunk m)
  unfolding upload_chunk Lands
  upload_chunk-Lands offset total chunk m =
      let last = last_byte offset total (lib.size chunk) in
      if_Lands _ _ (lib.size chunk == 0) _ _ (λ q. inl refl)
        (λ a.
          if_Lands _ _ (leb total offset) _ _ (λ q. inl refl)
            (λ b.
              if_Lands _ _ (not (lib.size chunk == last - offset + 1)) _ _ (λ q. inl refl)
                (λ d.
                  if_Lands _ _
                    (not (last + 1 == total) && not (lib.size chunk % chunk_granularity == 0)) _ _
                    (λ q. inl refl) (λ q. after_chunk-Lands _ total m.log _ (request-Sent _ m)))))

  -- The upload of a chunk makes no request, or sends the bytes once, or sends them once and then asks
  -- for the status; it never sends them again, also where the response is lost or ambiguous.
  pub chunk_is-SentOnce :
      (offset total : ℕ) (chunk : lib.Bytes) (m : Memory lib r.Cloud)
      → IsSentOnce
          (send_bytes offset (last_byte offset total (lib.size chunk)) total chunk)
          total
          m.log
          (upload_chunk r uri offset total chunk m).1.log
  chunk_is-SentOnce offset total chunk m =
      let body = send_bytes offset (last_byte offset total (lib.size chunk)) total chunk in
      landed (λ _. IsOnce body total m.log) (IsOnce body total m.log) (IsOnce body total m.log) _
        (λ a n h. h) (λ n h. h) (upload_chunk-Lands offset total chunk m)
