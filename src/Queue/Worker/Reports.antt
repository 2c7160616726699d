-- ===== src/Queue/Worker/Reports.antt =====
-- `_download_step` and `_finalize_step` of app/core/archive_queue.py end as `Ends` says.
use mcp_yandex_cloud_infra.Prelude.{
  ℕ, ◌+◌, ◌<◌, ◌≡◌, refl, inl, inr, String, Option, none, some, List, [], ◌∷◌, length, leb,
  Bool-cases, arith, get_elem?, pair_eq, string_eq, nat_eq, ◌==◌, ◌&&◌,
}
use mcp_yandex_cloud_infra.Dict.{lookup, insert}
use mcp_yandex_cloud_infra.Json.{Json}
use mcp_yandex_cloud_infra.Finance.Csv.{Library, Row}
use mcp_yandex_cloud_infra.Finance.Annual.{Stats, merge_annual_csv}
use mcp_yandex_cloud_infra.Finance.Registry.{merge_registry}
use mcp_yandex_cloud_infra.Finance.Fragments.{ReportFragment}
use mcp_yandex_cloud_infra.Queue.State.{
  Job, queued, complete, prepare, upload_annual, commit, unknown, FinalizePhase, Finalize, Payload,
  World, Step, Reply, Clock, report_rows, close,
}
use mcp_yandex_cloud_infra.Queue.Waiting.{Handled, go_on, ended}
use mcp_yandex_cloud_infra.Queue.Discover.{Setup, ask, rows_of, page_items}
use mcp_yandex_cloud_infra.Queue.Download
use mcp_yandex_cloud_infra.Queue.Download.{download_step, finish_report, rows_error, last_rrd}
use mcp_yandex_cloud_infra.Queue.Finalize
use mcp_yandex_cloud_infra.Queue.Finalize.{
  Ids, finalize_step, prepare_stage, upload_stage, commit_stage, commit_record,
}
use mcp_yandex_cloud_infra.Queue.Worker.Ends.{
  finalize_rank, Advances, Ends, requeue-Ends, close-Ends,
}
use mcp_yandex_cloud_infra.Queue.Worker.Steps.{
  raised-Ends, ask-Ends, Ends-weaken, if_Ends, with_credentials-Ends, IsHandled,
  wait_or_fail-IsHandled,
}

module _ {lib : Library} (s : Setup) (clock : Clock) (j : Job) (w : World lib) where
  finish_report-Ends :
      (n : ℕ) (calls : ℕ)
      → finalize_rank j.finalize ≡ 0
      → Ends 0 clock j w (finish_report s clock n (record j { provider_calls = calls }) w)
  unfolding finish_report Advances
  finish_report-Ends n calls h =
      requeue-Ends clock j _ 0 _ w w refl (inl refl)
        (λ q. inr (refl, inr (refl, inr (refl, inl (omega (arith, h)))))) refl refl refl

  staged-Ends :
      (n rrd calls : ℕ) (o : Option (lib.Bytes × Stats))
      → j.current_rrd_id < rrd
      → Ends 0 clock j w (Download.staged s clock n rrd o (record j { provider_calls = calls }) w)
  unfolding Advances
  staged-Ends n rrd calls none l = raised-Ends clock j w _
  staged-Ends n rrd calls (some (file, stats)) l =
      requeue-Ends clock j
        (record j { provider_calls = calls; current_rrd_id = rrd; status = queued }) 0 _ w
        (record w { staging = insert (j.job_id, n) file w.staging }) refl (inl refl)
        (λ q. inr (refl, inr (refl, inr (refl, inr (refl, l))))) refl refl refl

  at_position-Ends :
      (n calls : ℕ) (rows : List Row) (o : Option ℕ)
      → Ends 0 clock j w
          (Download.at_position s clock n rows o (record j { provider_calls = calls }) w)
  at_position-Ends n calls rows none = raised-Ends clock j w _
  at_position-Ends n calls rows (some rrd) = elim (Bool-cases (leb rrd j.current_rrd_id)) [
    | inl e ↦ rw e (raised-Ends clock j w _)
    | inr e ↦ rw e (
        staged-Ends n rrd calls (merge_annual_csv lib (lookup (j.job_id, n) w.staging) rows)
          (ground (arith, e)))
  ]

  if_clean-Ends :
      (e : Option String) (x : Step lib)
      → Ends 0 clock j w x
      → Ends 0 clock j w (Download.if_clean s e w x)
  if_clean-Ends none x h = h
  if_clean-Ends (some e) x h = raised-Ends clock j w e

  with_rows-Ends :
      (n calls : ℕ) (o : Option (List Row))
      → Ends 0 clock j w (Download.with_rows s clock n o (record j { provider_calls = calls }) w)
  with_rows-Ends n calls none = raised-Ends clock j w _
  with_rows-Ends n calls (some rows) =
      if_clean-Ends (rows_error s n rows) _ (at_position-Ends n calls rows (last_rrd s rows))

  with_page-Ends :
      (n calls : ℕ) (o : Option (List Json))
      → finalize_rank j.finalize ≡ 0
      → Ends 0 clock j w (Download.with_page s clock n o (record j { provider_calls = calls }) w)
  with_page-Ends n calls none h = raised-Ends clock j w _
  with_page-Ends n calls (some []) h = finish_report-Ends n calls h
  with_page-Ends n calls (some (x ∷ xs)) h = with_rows-Ends n calls (rows_of (x ∷ xs))

  answered-Ends :
      (n : ℕ) (p : Payload) (o : Handled lib)
      → finalize_rank j.finalize ≡ 0
      → IsHandled clock j w o
      → Ends 0 clock j w (Download.answered s clock n p o w)
  answered-Ends n p (ended x) h e = e
  answered-Ends n p (go_on k) h e = rw e (
      if_Ends 0 clock j w (p.status == 204) _ _ (finish_report-Ends n (j.provider_calls + 1) h)
        (with_page-Ends n (j.provider_calls + 1) (page_items p.body) h))

  pub close_complete-Ends :
      (k : Job) (r : Reply)
      → k.job_id ≡ j.job_id
      → Ends 0 clock j w (close clock (record k { status = complete }) r w)
  close_complete-Ends k r e =
      close-Ends clock j (record k { status = complete }) r w w e (inl refl) refl refl refl

module _ {lib : Library} (s : Setup) (clock : Clock) (j : Job) (w : World lib) where
  at_fragment-Ends :
      (o : Option ReportFragment)
      → finalize_rank j.finalize ≡ 0
      → Ends 1 clock j w (Download.at_fragment s clock o j w)
  at_fragment-Ends none h = Ends-weaken clock j w _ (close_complete-Ends s clock j w j _ refl)
  at_fragment-Ends (some f) h =
      let r = report_rows j.cabinet f.report_id j.current_rrd_id in
      let (payload, w1) = ask s r w in
      with_credentials-Ends s clock j w (s.credentials j.cabinet) _ (
        if_Ends 1 clock j w s.has_detail _ _
          (ask-Ends clock j w r _ (
            answered-Ends s clock j w1 f.report_id payload _ h
              (wait_or_fail-IsHandled s.cut clock payload "download_failed" j w1)))
          (Ends-weaken clock j w _ (raised-Ends clock j w _)))

  pub download_step-Ends :
      finalize_rank j.finalize ≡ 0 → Ends 1 clock j w (download_step s clock j w)
  unfolding download_step
  download_step-Ends h = at_fragment-Ends (get_elem? j.fragments j.report_index) h

module _ {lib : Library} (s : Setup) (ids : Ids) (clock : Clock) (j : Job) (f : Finalize)
    (w : World lib) (h : j.finalize ≡ some f) where
  prepared-Ends :
      (rows : List Row) (o : Option (lib.Bytes × Stats))
      → f.phase ≡ prepare
      → Ends 0 clock j w (Finalize.prepared s ids clock j f rows o w)
  unfolding Advances
  prepared-Ends rows none e = raised-Ends clock j w _
  prepared-Ends rows (some (file, stats)) e =
      requeue-Ends clock j _ 0 _ w _ refl (inl refl)
        (λ q. inr (refl, inr (refl, inr (refl, inl (rw (h, e) (omega arith)))))) refl refl refl

  uploaded-Ends :
      (o : Option lib.Bytes)
      → f.phase ≡ upload_annual
      → Ends 0 clock j w (Finalize.uploaded s ids clock j f o w)
  unfolding Advances
  uploaded-Ends none e = raised-Ends clock j w _
  uploaded-Ends (some file) e =
      if_Ends 0 clock j w (lib.size file == f.annual_bytes && lib.sha256 file == f.annual_sha256) _
        _
        (requeue-Ends clock j _ 0 _ w _ refl (inl refl)
          (λ q. inr (refl, inr (refl, inr (refl, inl (rw (h, e) (omega arith)))))) refl refl refl)
        (raised-Ends clock j w _)

  committed-Ends :
      (o : Option lib.Bytes) → Ends 0 clock j w (Finalize.committed s ids clock j f o w)
  unfolding Advances
  committed-Ends none = raised-Ends clock j w _
  committed-Ends (some registry) =
      if_Ends 0 clock j w (leb (length j.fragments) (j.report_index + 1)) _ _
        (close-Ends clock j _ _ w _ refl (inl refl) refl refl refl)
        (requeue-Ends clock j _ 0 _ w _ refl (inl refl)
          (λ q. inr (refl, inr (refl, inl (omega arith)))) refl refl refl)

  by_phase-Ends :
      (p : FinalizePhase) (fragment : ReportFragment)
      → f.phase ≡ p
      → Ends 0 clock j w (Finalize.by_phase s ids p clock j f fragment w)
  unfolding prepare_stage upload_stage commit_stage
  by_phase-Ends prepare fragment e = prepared-Ends _ _ e
  by_phase-Ends upload_annual fragment e = uploaded-Ends (lookup j.job_id w.candidates) e
  by_phase-Ends commit fragment e =
      if_Ends 0 clock j w (f.annual_object_id == "") _ _ (raised-Ends clock j w _)
        (committed-Ends (merge_registry lib w.registry (commit_record ids clock j f fragment ∷ [])))
  by_phase-Ends (unknown p) fragment e = raised-Ends clock j w _

  for_fragment-Ends :
      (o : Option ReportFragment) → Ends 0 clock j w (Finalize.for_fragment s ids clock j f o w)
  for_fragment-Ends none = raised-Ends clock j w _
  for_fragment-Ends (some fragment) =
      if_Ends 0 clock j w (f.report_id == fragment.report_id) _ _
        (by_phase-Ends f.phase fragment refl) (raised-Ends clock j w _)

  pub finalize_step-Ends : Ends 1 clock j w (finalize_step s ids clock j f w)
  unfolding finalize_step
  finalize_step-Ends =
      Ends-weaken clock j w _ (for_fragment-Ends (get_elem? j.fragments j.report_index))
