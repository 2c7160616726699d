-- ===== src/Upload/Sound.antt =====
-- What the exchanges of an upload step, and the states it passes through, must satisfy.
use mcp_yandex_cloud_infra.Prelude.{
  ℕ, ◌+◌, ◌≤◌, ◌<◌, ◌≡◌, ◌≢◌, ◌⊎◌, String, true, Option, none, some, List, [], ◌∷◌, In, nat_eq,
  string_eq, pair_eq,
}
use mcp_yandex_cloud_infra.Dict.{lookup}
use mcp_yandex_cloud_infra.Finance.Csv.{Library}
use mcp_yandex_cloud_infra.Queue.State.{
  Job, Finalize, upload_annual, commit, World, Clock, load, failed, waiting_configuration,
}
use mcp_yandex_cloud_infra.Upload.Remote.{
  Remote, Memory, Meta, Promotion, Put, ask_status, send_bytes, Exchange, requested, described,
  mirrored, promotion_sent,
}
use mcp_yandex_cloud_infra.Upload.Session.{is_session_url}
use mcp_yandex_cloud_infra.Upload.Finish.{Target, metadata_matches}

module _ {lib : Library} (r : Remote lib) (t : Target) where
  -- The file was described with the recorded size and hash.
  abbrev pub WasExact : String → List (Exchange lib.Bytes) → Type 0
  WasExact file_id log =
      (meta : Meta) × (In (described file_id meta) log
        × (metadata_matches r meta t.expected_bytes t.expected_sha ≡ true))

module _ (lib : Library) (t : Target) where
  abbrev pub IsExact : lib.Bytes → Type 0
  IsExact file = (lib.size file ≡ t.expected_bytes) × (lib.sha256 file ≡ t.expected_sha)

  abbrev pub WasMirrored : List (Exchange lib.Bytes) → Type 0
  WasMirrored log = (file : lib.Bytes) × (In (mirrored file) log × IsExact file)

module _ {lib : Library} (r : Remote lib) (t : Target) (candidate : Option lib.Bytes) where
  -- The candidate's bytes from an offset up to a last one, inside the recorded size.
  unfoldable pub IsRange : Put lib.Bytes → Type 0
  IsRange (ask_status total) = total ≡ t.expected_bytes
  IsRange (send_bytes offset last total chunk) =
      (total ≡ t.expected_bytes)
      × (offset + lib.size chunk ≡ last + 1)
      × (last < total)
      × ((file : lib.Bytes) × ((candidate ≡ some file) × (chunk ≡ r.slice offset (last + 1) file)))

  -- An exchange, by the ones before it.
  unfoldable pub IsJustified : Exchange lib.Bytes → List (Exchange lib.Bytes) → Type 0
  unfolding IsRange metadata_matches
  IsJustified (requested uri body) older = (is_session_url r uri ≡ true) × IsRange body
  IsJustified (described file_id meta) older = Unit
  IsJustified (mirrored file) older = IsExact lib t file
  IsJustified (promotion_sent p) older =
      (p.expected_bytes ≡ t.expected_bytes)
      × (p.expected_sha256 ≡ t.expected_sha)
      × WasExact r t p.file_id older
      × WasMirrored lib t older

  unfoldable pub AllJustified : List (Exchange lib.Bytes) → Type 0
  unfolding IsJustified
  AllJustified [] = Unit
  AllJustified (e ∷ older) = IsJustified e older × AllJustified older

-- The finalize state says which file was to be promoted, or that it has been.
abbrev pub IsMarked : Promotion → Finalize → Type 0
IsMarked p f =
    ((f.resumable_upload.promotion_attempted ≡ true)
      × (f.resumable_upload.staged_file_id ≡ p.file_id))
    ⊎ (f.phase ≡ commit)

module _ {lib : Library} (r : Remote lib) (clock : Clock) (t : Target) (j : Job)
    (w : World lib) where
  -- The job keeps its name, and the worlds differ in nothing that the step does not write.
  unfoldable pub IsSame : Memory lib r.Cloud → Type 0
  unfolding load
  IsSame m =
      (m.job.job_id ≡ j.job_id)
      × (m.job.cabinet ≡ j.cabinet)
      × (m.job.year ≡ j.year)
      × (m.world.candidates ≡ w.candidates)
      × (m.world.registry ≡ w.registry)
      × ((k : String) → j.job_id ≢ k → load k m.world ≡ load k w)

  -- The annual backup is the exact candidate, and the file that the commit names was exact.
  unfoldable pub IsCommitted : Memory lib r.Cloud → Type 0
  unfolding lookup metadata_matches
  IsCommitted m =
      (m.finalize.phase ≡ commit)
      × ((file : lib.Bytes) × ((lookup (j.cabinet, j.year) m.world.annual ≡ some file)
            × (lookup j.job_id w.candidates ≡ some file)
            × IsExact lib t file))
      × WasExact r t m.finalize.annual_object_id m.log

  -- Before a promotion is asked for.
  unfoldable pub IsEarly : Memory lib r.Cloud → Type 0
  unfolding IsSame AllJustified
  IsEarly m =
      IsSame m
      × AllJustified r t (lookup j.job_id w.candidates) m.log
      × (m.finalize.phase ≡ upload_annual)
      × ((p : Promotion) → ¬ In (promotion_sent p) m.log)
      × (m.world.due ≡ w.due)

  unfoldable pub IsSaved : Memory lib r.Cloud → Type 0
  unfolding load
  IsSaved m =
      (p : Promotion)
      → In (promotion_sent p) m.log
      → (k : Job) × ((f : Finalize) × ((load j.job_id m.world ≡ some k)
            × (k.finalize ≡ some f)
            × IsMarked p f))

  -- At any time: a promotion that was asked for is on record.
  unfoldable pub IsLate : Memory lib r.Cloud → Type 0
  unfolding IsSame AllJustified IsSaved IsCommitted
  IsLate m =
      IsSame m
      × AllJustified r t (lookup j.job_id w.candidates) m.log
      × ((m.finalize.phase ≡ upload_annual) ⊎ IsCommitted m)
      × ((p : Promotion) → In (promotion_sent p) m.log → IsMarked p m.finalize)
      × IsSaved m

  -- How an error leaves the job: it is due as before.
  unfoldable pub IsStopped : Memory lib r.Cloud → Type 0
  unfolding IsLate
  IsStopped m = IsLate m × (m.world.due ≡ w.due)

  -- It is off the queue with a status that says why, or due again.
  unfoldable pub IsRescheduled : Memory lib r.Cloud → Type 0
  unfolding load lookup
  IsRescheduled m =
      ((k : Job) × ((load j.job_id m.world ≡ some k)
          × (((lookup j.job_id m.world.due ≡ none)
                × ((k.status ≡ failed) ⊎ (k.status ≡ waiting_configuration)))
              ⊎ ((due : ℕ) × ((lookup j.job_id m.world.due ≡ some due) × (clock.time ≤ due))))))
      × ((q : String) → j.job_id ≢ q → lookup q m.world.due ≡ lookup q w.due)

  unfoldable pub IsFinished : Memory lib r.Cloud → Type 0
  unfolding IsLate IsRescheduled
  IsFinished m = IsLate m × IsRescheduled m
