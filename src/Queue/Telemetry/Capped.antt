-- ===== src/Queue/Telemetry/Capped.antt =====
-- What `record_finalize_event` of app/core/archive_finalize_telemetry.py leaves of the history of
-- events.
use mcp_yandex_cloud_infra.Prelude.{
  ℕ, ◌+◌, ◌-◌, ◌≤◌, ◌≡◌, refl, inl, inr, ap, sym, ◌∙◌, min, String, true, false, some, List, [],
  ◌∷◌, ◌++◌, All, Bool-cases, arith, length, length-drop, length-append, take, drop,
  take-append-drop, string_eq, ◌==◌, streq_iff,
}
use mathlib.Core.List.{append_assoc}
use mcp_yandex_cloud_infra.Dict.{Dict, lookup, insert, lookup-insert}
use mcp_yandex_cloud_infra.Json.{Json, str}
use mcp_yandex_cloud_infra.Errors.{is_in}
use mcp_yandex_cloud_infra.Queue.Telemetry.{
  Telemetry, Subject, put_all, last_events, record_finalize_event, safe_fields, public_keys,
}

-- One call: the time, the subject, the event and its fields.
pub record Called : Type 0 where
  pub now : String
  pub subject : Subject
  pub event : String
  pub fields : Dict String Json

abbrev pub event_keys : List String
event_keys =
    "at_utc" ∷ "event" ∷ "phase" ∷ "candidate_object_id" ∷ "candidate_bytes" ∷ "candidate_sha256"
    ∷ "staging_file_id" ∷ "canonical_file_id" ∷ "previous_canonical_file_id" ∷ "resumable_offset"
    ∷ "transition" ∷ "retry_count" ∷ "canonical_state" ∷ []

-- The event that a call records: its time and its name, and no key that is not public.
abbrev pub IsItem : Called → Dict String Json → Type 0
IsItem c item =
    (lookup "at_utc" item ≡ some (str c.now))
    × (lookup "event" item ≡ some (str c.event))
    × All (λ (e : String × Json). is_in e.0 event_keys ≡ true) item

abbrev pub AreItems : List Called → List (Dict String Json) → Type 0
AreItems [] [] = Unit
AreItems (c ∷ cs) (item ∷ items) = IsItem c item × AreItems cs items
AreItems _ _ = ⊥

lookup-put_all :
    (k : String) (fields d : Dict String Json)
    → is_in k public_keys ≡ false
    → lookup k (put_all (safe_fields fields) d) ≡ lookup k d
unfolding put_all
lookup-put_all k [] d h = refl
lookup-put_all k ((j, v) ∷ fields) d h = elim (Bool-cases (is_in j public_keys)) [
  | inr e ↦ rw e (lookup-put_all k fields d h)
  | inl e ↦ rw e (
      lookup-put_all k fields (insert j v d) h ∙ elim (Bool-cases (j == k)) [
        | inl q ↦ let same : j ≡ k = ground (arith, q, streq_iff j k) in cc (same, e, h)
        | inr q ↦ rw (lookup-insert j k v d, q) refl
      ])
]

All-insert :
    (k : String) (v : Json) (d : Dict String Json)
    → is_in k event_keys ≡ true
    → All (λ (e : String × Json). is_in e.0 event_keys ≡ true) d
    → All (λ (e : String × Json). is_in e.0 event_keys ≡ true) (insert k v d)
unfolding insert
All-insert k v [] h a = (h, tt)
All-insert k v ((j, w) ∷ d) h (b, a) = elim (Bool-cases (j == k)) [
  | inl e ↦ rw e (b, a)
  | inr e ↦ rw e (b, All-insert k v d h a)
]

event_key_of_public : (k : String) → is_in k public_keys ≡ true → is_in k event_keys ≡ true
event_key_of_public k h = ground arith

All-put_all :
    (fields d : Dict String Json)
    → All (λ (e : String × Json). is_in e.0 event_keys ≡ true) d
    → All (λ (e : String × Json). is_in e.0 event_keys ≡ true) (put_all (safe_fields fields) d)
unfolding put_all
All-put_all [] d a = a
All-put_all ((k, v) ∷ fields) d a = elim (Bool-cases (is_in k public_keys)) [
  | inl e ↦ rw e (All-put_all fields (insert k v d) (All-insert k v d (event_key_of_public k e) a))
  | inr e ↦ rw e (All-put_all fields d a)
]

module _ (correlation_id : String → ℕ → String) where
  abbrev pub after : Called → Telemetry → Telemetry
  after c t = record_finalize_event correlation_id c.now c.subject c.event c.fields t

  unfoldable pub record_events : List Called → Telemetry → Telemetry
  record_events [] t = t
  record_events (c ∷ cs) t = record_events cs (after c t)

  event-recorded :
      (c : Called) (t : Telemetry)
      → (item : Dict String Json) × (IsItem c item
          × ((after c t).events ≡ last_events (t.events ++ item ∷ [])))
  unfolding record_finalize_event lookup
  event-recorded c t =
      let d : Dict String Json =
        ("at_utc", str c.now) ∷ ("event", str c.event) ∷ ("phase", str c.subject.phase) ∷ [] in
      (
        put_all (safe_fields c.fields) d,
        (
          (
            lookup-put_all "at_utc" c.fields d refl,
            lookup-put_all "event" c.fields d refl,
            All-put_all c.fields d (refl, (refl, (refl, tt))),
          ),
          refl,
        ),
      )

  -- From a telemetry with at most 40 events: after any calls it holds, in their order, the last 40 of
  -- the events that it held and of those that the calls recorded, or all of them if they are fewer. A
  -- recorded event has the time and the name of its call, and besides these and the phase no key that
  -- is not public.
  pub events_are-Last :
      (cs : List Called) (t : Telemetry)
      → length t.events ≤ 40
      → (items : List (Dict String Json)) × (older : List (Dict String Json)) × (AreItems cs items
          × (t.events ++ items ≡ older ++ (record_events cs t).events)
          × (length (record_events cs t).events ≡ min 40 (length t.events + length cs)))
  unfolding record_events last_events
  events_are-Last [] t h = ([], [], (tt, append_nil t.events, omega (arith, h)))
    where
      append_nil : (xs : List (Dict String Json)) → xs ++ [] ≡ xs
      append_nil [] = refl
      append_nil (x ∷ xs) = ap (λ ys. x ∷ ys) (append_nil xs)
  events_are-Last (c ∷ cs) t h =
      let (item, (is_item, e)) = event-recorded c t in
      let all = t.events ++ item ∷ [] in
      let n = length all - 40 in
      let kept : length (after c t).events ≡ length all - n = ap length e ∙ length-drop n all in
      let size = length-append t.events (item ∷ []) in
      let (items, older, (are, q, l)) =
        events_are-Last cs (after c t) (omega (arith, kept, size)) in
      (
        item ∷ items,
        take n all ++ older,
        (
          (is_item, are),
          sym (append_assoc t.events (item ∷ []) items)
              ∙ (ap (λ xs. xs ++ items) (sym (take-append-drop n all))
                  ∙ (append_assoc (take n all) (drop n all) items
                      ∙ (ap (λ xs. take n all ++ (xs ++ items)) (sym e)
                          ∙ (ap (λ xs. take n all ++ xs) q
                              ∙ sym (append_assoc (take n all) older _))))),
          omega (arith, l, kept, size, h),
        ),
      )
