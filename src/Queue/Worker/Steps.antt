-- ===== src/Queue/Worker/Steps.antt =====
-- `_wait_or_fail`, `_discover_step` and `_download_step` of app/core/archive_queue.py end as
-- `Ends` says.
use mcp_yandex_cloud_infra.Prelude.{
  ℕ, ◌+◌, ◌≡◌, refl, inl, inr, String, Bool, true, false, Option, none, some, List, [], ◌∷◌, ◌++◌,
  not, keep_if, length, length-append, leb, nat_beq, Bool-cases, arith, if◌then◌else◌, pair_eq,
  string_eq, nat_eq,
}
use mcp_yandex_cloud_infra.Json.{Json}
use mcp_yandex_cloud_infra.Finance.Csv.{Library, Row}
use mcp_yandex_cloud_infra.Finance.Fragments.{ReportFragment, normalize_main_fragments}
use mcp_yandex_cloud_infra.Finance.Registry.{registry_complete_ids}
use mcp_yandex_cloud_infra.Queue.State.{
  Job, Payload, World, Step, done, raised, Clock, Request, list_reports, load,
}
use mcp_yandex_cloud_infra.Queue.Waiting.{Handled, go_on, ended, wait_or_fail, is_rate_limited}
use mcp_yandex_cloud_infra.Queue.Discover
use mcp_yandex_cloud_infra.Queue.Discover.{
  Setup, ask, discover_step, discovered, start_downloads, is_member, accumulate, rows_of,
}
use mcp_yandex_cloud_infra.Queue.Worker.Ends.{
  phase_rank, Advances, Kept, Framed, stores, Ends, requeue-Ends, close-Ends,
}

module _ {lib : Library} where
  pub raised-Ends :
      (clock : Clock) (j : Job) (w : World lib) (e : String) → Ends 0 clock j w (raised w e)
  unfolding Ends
  raised-Ends clock j w e = (refl, omega arith)

  -- One more request made before the step.
  pub ask-Ends :
      (clock : Clock) (j : Job) (w : World lib) (r : Request) (x : Step lib)
      → Ends 0 clock j (record w { requests = w.requests ++ r ∷ [] }) x
      → Ends 1 clock j w x
  unfolding Ends Kept Framed stores load
  ask-Ends clock j w r (done v p) (k, f, l) =
      (k, f, omega (arith, l, length-append {0} w.requests (r ∷ [])))
  ask-Ends clock j w r (raised v e) (q, l) =
      (q, omega (arith, l, length-append {0} w.requests (r ∷ [])))

  pub Ends-weaken :
      (clock : Clock) (j : Job) (w : World lib) (x : Step lib)
      → Ends 0 clock j w x
      → Ends 1 clock j w x
  unfolding Ends Kept
  Ends-weaken clock j w (done v p) (k, f, l) = (k, f, omega (arith, l))
  Ends-weaken clock j w (raised v e) (q, l) = (q, omega (arith, l))

  pub if_Ends :
      (n : ℕ) (clock : Clock) (j : Job) (w : World lib) (b : Bool) (x y : Step lib)
      → Ends n clock j w x
      → Ends n clock j w y
      → Ends n clock j w (if b then x else y)
  if_Ends n clock j w true x y h g = h
  if_Ends n clock j w false x y h g = g

  -- A payload that is no error counts one call; another one ends the step.
  abbrev pub IsHandled : Clock → Job → World lib → Handled lib → Type 0
  IsHandled clock j w (go_on k) = k ≡ record j { provider_calls = j.provider_calls + 1 }
  IsHandled clock j w (ended x) = Ends 0 clock j w x

  pub wait_or_fail-IsHandled :
      (cut : String → String) (clock : Clock) (p : Payload) (action : String) (j : Job)
      (w : World lib)
      → IsHandled clock j w (wait_or_fail cut clock p action j w)
  unfolding wait_or_fail Advances
  wait_or_fail-IsHandled cut clock p action j w = elim (Bool-cases p.ok) [
    | inl e ↦ rw e refl
    | inr e ↦ rw e (elim (Bool-cases (is_rate_limited p)) [
      | inl l ↦
          rw l (requeue-Ends clock j _ _ _ w w refl (inr (inl refl)) (λ q. cc q) refl refl refl)
      | inr l ↦ rw l (elim (Bool-cases p.retryable) [
        | inl t ↦
            rw t (requeue-Ends clock j _ _ _ w w refl (inr (inr refl)) (λ q. cc q) refl refl refl)
        | inr t ↦ rw t (close-Ends clock j _ _ w w refl (inr refl) refl refl refl)
      ])
    ])
  ]

  module _ (s : Setup) (clock : Clock) (j : Job) (w : World lib) where
    start_downloads-Ends :
        (k : Job)
        → k.job_id ≡ j.job_id
        → phase_rank j.phase ≡ 0
        → Ends 0 clock j w (start_downloads s clock k w)
    unfolding start_downloads Advances
    start_downloads-Ends k e d =
        let finished = registry_complete_ids lib w.registry k.cabinet in
        let pending = keep_if (λ f. not (is_member f.report_id finished)) k.fragments in
        elim (Bool-cases (nat_beq (length pending) 0)) [
          | inl n ↦ rw n (close-Ends clock j _ _ w w e (inl refl) refl refl refl)
          | inr n ↦ rw n (
              requeue-Ends clock j _ 0 _ w w e (inl refl) (λ q. inl (rw d (omega arith))) refl refl
                refl)
        ]

    discovered-Ends :
        (count : ℕ) (found : List ReportFragment) (k : Job)
        → k.job_id ≡ j.job_id
        → phase_rank j.phase ≡ 0
        → k.phase ≡ j.phase
        → k.discovery_offset ≡ j.discovery_offset
        → Ends 0 clock j w (discovered s clock count found k w)
    unfolding discovered Advances
    discovered-Ends count found k e d p o = elim (Bool-cases (leb 1000 count)) [
      | inl n ↦ rw n (
          requeue-Ends clock j _ 0 _ w w e (inl refl) (λ q. inr (rw p refl, inl (ground arith)))
            refl refl refl)
      | inr n ↦ rw n (
          start_downloads-Ends (record k { fragments = accumulate s k.year k.fragments found }) e d)
    ]

    -- The same after a page, its rows and its fragments are read.
    abbrev IsSame : Job → Type 0
    IsSame k =
        (k.job_id ≡ j.job_id) × (k.phase ≡ j.phase) × (k.discovery_offset ≡ j.discovery_offset)

    with_fragments-Ends :
        (count : ℕ) (o : Option (List ReportFragment)) (k : Job)
        → phase_rank j.phase ≡ 0
        → IsSame k
        → Ends 0 clock j w (Discover.with_fragments s clock count o k w)
    with_fragments-Ends count none k d h = raised-Ends clock j w _
    with_fragments-Ends count (some found) k d (e, p, o) = discovered-Ends count found k e d p o

    with_rows-Ends :
        (count : ℕ) (o : Option (List Row)) (k : Job)
        → phase_rank j.phase ≡ 0
        → IsSame k
        → Ends 0 clock j w (Discover.with_rows s clock count o k w)
    with_rows-Ends count none k d h = raised-Ends clock j w _
    with_rows-Ends count (some rows) k d h =
        with_fragments-Ends count (normalize_main_fragments s.dates rows) k d h

    with_page-Ends :
        (o : Option (List Json)) (k : Job)
        → phase_rank j.phase ≡ 0
        → IsSame k
        → Ends 0 clock j w (Discover.with_page s clock o k w)
    with_page-Ends none k d h = raised-Ends clock j w _
    with_page-Ends (some items) k d h = with_rows-Ends (length items) (rows_of items) k d h

    listed-Ends :
        (body : Json) (h : Handled lib)
        → phase_rank j.phase ≡ 0
        → IsHandled clock j w h
        → Ends 0 clock j w (Discover.listed s clock body h w)
    listed-Ends body (ended x) d h = h
    listed-Ends body (go_on k) d h =
        with_page-Ends (Discover.page_items body) k d (rw h refl, rw h refl, rw h refl)

  pub with_credentials-Ends :
      (s : Setup) (clock : Clock) (j : Job) (w : World lib) (c : Option String) (x : Step lib)
      → Ends 1 clock j w x
      → Ends 1 clock j w (Discover.with_credentials s c w x)
  with_credentials-Ends s clock j w none x h = h
  with_credentials-Ends s clock j w (some e) x h = Ends-weaken clock j w _ (raised-Ends clock j w e)

  pub discover_step-Ends :
      (s : Setup) (clock : Clock) (j : Job) (w : World lib)
      → phase_rank j.phase ≡ 0
      → Ends 1 clock j w (discover_step s clock j w)
  unfolding discover_step
  discover_step-Ends s clock j w d =
      let r = list_reports j.cabinet j.year j.discovery_offset in
      let (payload, w1) = ask s r w in
      with_credentials-Ends s clock j w (s.credentials j.cabinet) _ (
        if_Ends 1 clock j w s.has_listing _ _
          (ask-Ends clock j w r _ (
            listed-Ends s clock j w1 payload.body _ d
              (wait_or_fail-IsHandled s.cut clock payload "discover_failed" j w1)))
          (Ends-weaken clock j w _ (raised-Ends clock j w _)))
