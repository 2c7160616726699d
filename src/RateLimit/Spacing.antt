-- ===== src/RateLimit/Spacing.antt =====
-- The spacing of the requests that the SQLite backend of app/core/rate_limit.py lets through on one
-- limiter key, over any order of transactions.
use mcp_yandex_cloud_infra.Prelude.{
  ℕ, ◌+◌, ◌≤◌, ◌≡◌, refl, String, Option, none, some, List, [], ◌∷◌, inl, inr, arith, Option-cases,
  Bool, string_eq, ◌==◌, if◌then◌else◌, streq_iff,
}
use mcp_yandex_cloud_infra.RateLimit.Rules.{RateRule}
use mcp_yandex_cloud_infra.RateLimit.Sqlite.{
  SlotTable, raise_to, grant_at, write_slots, reserve_sqlite, defer_sqlite, try_reserve_sqlite,
}

-- The interval that a reservation writes last for the key.
abbrev or_else : Option ℕ → Option ℕ → Option ℕ
or_else none d = d
or_else (some i) d = some i

unfoldable pub interval_of : String → List RateRule → Option ℕ
interval_of k [] = none
interval_of k (r ∷ rs) = or_else (interval_of k rs) (if r.key == k then some r.interval else none)

-- One transaction of any process.
pub data Op : Type 0 where
  reserve : List RateRule → Op
  attempt : List RateRule → Op
  defer : List String → ℕ → Op

-- The interval of the key among the rules of a transaction that sends.
unfoldable pub interval_in : String → ℕ × Op → Option ℕ
unfolding interval_of
interval_in k (now, reserve rules) = interval_of k rules
interval_in k (now, attempt rules) = interval_of k rules
interval_in k (now, defer keys seconds) = none

module _ (db : SlotTable) where
  open db use {Table, next_at, next_at-upsert}

  unfoldable pub apply : ℕ × Op → Table → Table
  apply (now, reserve rules) t = (reserve_sqlite db rules now t).0
  apply (now, attempt rules) t = (try_reserve_sqlite db rules now t).0
  apply (now, defer keys seconds) t = defer_sqlite db keys seconds now t

  unfoldable pub run : List (ℕ × Op) → Table → Table
  unfolding apply
  run [] t = t
  run (e ∷ es) t = run es (apply e t)

  -- The time before which no request of the key is sent.
  abbrev pub slot : String → Table → ℕ
  slot k t = raise_to (next_at k t) 0

  abbrev written : Option ℕ → ℕ → ℕ → ℕ
  written none g old = old
  written (some i) g old = g + i

  pub le-grant_at : (rs : List RateRule) (t : Table) (g : ℕ) → g ≤ grant_at db rs t g
  unfolding grant_at
  le-grant_at [] t g = omega arith
  le-grant_at (r ∷ rs) t g = ground (arith, le-grant_at rs t (raise_to (next_at r.key t) g))

  slot-le-grant_at :
      (k : String) (rs : List RateRule) (t : Table) (g : ℕ) {i : ℕ}
      → interval_of k rs ≡ some i
      → slot k t ≤ grant_at db rs t g
  unfolding grant_at interval_of
  slot-le-grant_at k [] t g h = cc
  slot-le-grant_at k (r ∷ rs) t g {i} h = ground (
    arith,
    streq_iff r.key k,
    slot-le-grant_at k rs t (raise_to (next_at r.key t) g) {i = i},
    le-grant_at rs t (raise_to (next_at r.key t) g),
  )

  slot-write_slots :
      (k : String) (rs : List RateRule) (g : ℕ) (t : Table)
      → slot k (write_slots db rs g t) ≡ written (interval_of k rs) g (slot k t)
  unfolding write_slots interval_of
  slot-write_slots k [] g t = refl
  slot-write_slots k (r ∷ rs) g t = ground (
    arith,
    slot-write_slots k rs g (db.upsert r.key (g + r.interval) t),
    next_at-upsert r.key k (g + r.interval) t,
  )

  pub slot-defer_sqlite :
      (k : String) (keys : List String) (seconds now : ℕ) (t : Table)
      → slot k t ≤ slot k (defer_sqlite db keys seconds now t)
  unfolding defer_sqlite
  slot-defer_sqlite k [] seconds now t = omega arith
  slot-defer_sqlite k (j ∷ js) seconds now t =
      let v = raise_to (next_at j t) (now + seconds) in
      ground (
        arith,
        streq_iff j k,
        next_at-upsert j k v t,
        slot-defer_sqlite k js seconds now (db.upsert j v t),
      )

  slot-reserve :
      (k : String) (rs : List RateRule) (g : ℕ) (t : Table)
      → grant_at db rs t g ≡ g
      → slot k t ≤ slot k (write_slots db rs g t)
  slot-reserve k rs g t h = elim (Option-cases (interval_of k rs)) [
    | inl e ↦ rw (slot-write_slots k rs g t, e) (omega arith)
    | inr (i, e) ↦
        rw (slot-write_slots k rs g t, e) (omega (arith, slot-le-grant_at k rs t g {i = i} e))
  ]

  grant_at_idem :
      (rs : List RateRule) (t : Table) (g g' : ℕ)
      → grant_at db rs t g ≤ g'
      → grant_at db rs t g' ≡ g'
  unfolding grant_at
  grant_at_idem [] t g g' h = refl
  grant_at_idem (r ∷ rs) t g g' h = ground (
    arith,
    le-grant_at rs t (raise_to (next_at r.key t) g),
    grant_at_idem rs t (raise_to (next_at r.key t) g) g',
  )

  -- No transaction moves a slot back.
  pub slot-apply : (k : String) (e : ℕ × Op) (t : Table) → slot k t ≤ slot k (apply e t)
  unfolding apply reserve_sqlite try_reserve_sqlite
  slot-apply k (now, reserve rules) t =
      let g = grant_at db rules t now in
      slot-reserve k rules g t (grant_at_idem rules t now g (omega arith))
  slot-apply k (now, attempt rules) t =
      ground (arith, slot-reserve k rules now t, le-grant_at rules t now)
  slot-apply k (now, defer keys seconds) t = slot-defer_sqlite k keys seconds now t

  pub slot-run : (k : String) (es : List (ℕ × Op)) (t : Table) → slot k t ≤ slot k (run es t)
  unfolding run
  slot-run k [] t = omega arith
  slot-run k (e ∷ es) t = omega (arith, slot-apply k e t, slot-run k es (apply e t))

  -- When the transaction lets its request be sent, if it does: a reservation `delay` after `now`, an
  -- attempt at once if it is granted.
  abbrev if_granted : ℕ → Bool × ℕ → Option ℕ
  if_granted now (granted, wait) = if granted then some now else none

  unfoldable pub sends_at : ℕ × Op → Table → Option ℕ
  unfolding reserve_sqlite try_reserve_sqlite
  sends_at (now, reserve rules) t = some (now + (reserve_sqlite db rules now t).1)
  sends_at (now, attempt rules) t = if_granted now (try_reserve_sqlite db rules now t).1
  sends_at (now, defer keys seconds) t = none

  slot-after_write :
      (k : String) (rules : List RateRule) (g : ℕ) (t : Table) {i : ℕ}
      → interval_of k rules ≡ some i
      → slot k (write_slots db rules g t) ≡ g + i
  slot-after_write k rules g t h = rw (slot-write_slots k rules g t, h) refl

  -- A send occupies the key for its interval.
  slot-after_send :
      (k : String) (e : ℕ × Op) (t : Table) (a i : ℕ)
      → interval_in k e ≡ some i
      → sends_at e t ≡ some a
      → a + i ≤ slot k (apply e t)
  unfolding interval_in sends_at apply reserve_sqlite try_reserve_sqlite
  slot-after_send k (now, reserve rules) t a i h q =
      let g = grant_at db rules t now in
      ground (arith, slot-after_write k rules g t {i = i} h, le-grant_at rules t now)
  slot-after_send k (now, attempt rules) t a i h q =
      ground (arith, slot-after_write k rules now t {i = i} h)
  slot-after_send k (now, defer keys seconds) t a i h q = cc q

  -- No send is before the slot.
  slot-le-send :
      (k : String) (e : ℕ × Op) (t : Table) (a i : ℕ)
      → interval_in k e ≡ some i
      → sends_at e t ≡ some a
      → slot k t ≤ a
  unfolding interval_in sends_at reserve_sqlite try_reserve_sqlite
  slot-le-send k (now, reserve rules) t a i h q =
      ground (arith, slot-le-grant_at k rules t now {i = i} h, le-grant_at rules t now)
  slot-le-send k (now, attempt rules) t a i h q =
      ground (arith, slot-le-grant_at k rules t now {i = i} h)
  slot-le-send k (now, defer keys seconds) t a i h q = cc q

  -- Two transactions that let a request be sent, each a reservation or a granted attempt whose rules
  -- name key `k`, the first with interval `i`: whatever transactions are between them, the second
  -- request is sent at least `i` after the first.
  pub grants_spaced :
      (k : String) (first second : ℕ × Op) (es : List (ℕ × Op)) (t : Table) (a b i j : ℕ)
      → interval_in k first ≡ some i
      → interval_in k second ≡ some j
      → sends_at first t ≡ some a
      → sends_at second (run es (apply first t)) ≡ some b
      → a + i ≤ b
  grants_spaced k first second es t a b i j h h' p q = omega (
    arith,
    slot-after_send k first t a i h p,
    slot-run k es (apply first t),
    slot-le-send k second (run es (apply first t)) b j h' q,
  )
