-- ===== src/Client/Retries.antt =====
-- How often `MarketplaceClient.request` of app/core/client.py sends, and when it does not.
use mcp_yandex_cloud_infra.Prelude.{
  ℕ, zero, suc, ◌+◌, ◌≤◌, ◌<◌, ◌≡◌, refl, inl, inr, ◌⊎◌, Bool, true, false, ◌&&◌, Option, none,
  some, List, min, ltb, Bool-cases, arith, nat_eq, string_eq, ◌==◌, if◌then◌else◌,
}
use mcp_yandex_cloud_infra.Errors.{TransportError}
use mcp_yandex_cloud_infra.RateLimit.Rules.{RateRule}
use mcp_yandex_cloud_infra.RateLimit.Controller.{Backend, try_acquire, defer_rules}
use mcp_yandex_cloud_infra.Json.{Json}
use mcp_yandex_cloud_infra.Client.Delay.{Response, cooldown_delay, backoff}
use mcp_yandex_cloud_infra.Client.Attempt
use mcp_yandex_cloud_infra.Client.Attempt.{
  Answer, responded, broke, Call, Net, Result, Wire, max_retries, failure, may_retry,
  is_connect_phase, is_safe_verb, attempts,
}

eq_or_lt : (a b : ℕ) → a ≤ b → (a ≡ b) ⊎ (a < b)
eq_or_lt a b h = elim (Bool-cases (ltb a b)) [
  | inl l ↦ inr (ground arith)
  | inr l ↦ inl (ground arith)
]

-- A failure before the server was reached.
abbrev pub IsUnreached : Answer → Type 0
IsUnreached (responded r) = ⊥
IsUnreached (broke exc) = is_connect_phase exc ≡ true

retry_is_unreached :
    (c : Call) (left : ℕ) (exc : TransportError)
    → may_retry c left exc ≡ true
    → is_safe_verb c.verb ≡ false
    → is_connect_phase exc ≡ true
unfolding may_retry
retry_is_unreached c zero exc h n = cc h
retry_is_unreached c (suc left) exc h n = ground (arith, h, n)

module _ {backend : Backend} (wire : Wire) (rules : List RateRule) (c : Call) where
  -- At most `more` requests after those of `n`; with a verb that is not safe, each but the last
  -- failed before it reached the server.
  unfoldable pub Sends : ℕ → Net backend → Net backend × Result → Type 0
  Sends more n x =
      (n.sent ≤ x.0.sent)
      × (x.0.sent ≤ n.sent + more)
      × (is_safe_verb c.verb ≡ false
          → (k : ℕ) → n.sent ≤ k
          → k + 1 < x.0.sent
          → IsUnreached (wire.answer k))

  Again : ℕ → (Net backend → Net backend × Result) → Type 0
  Again left again =
      (exc : TransportError)
      → may_retry c left exc ≡ true
      → (m : Net backend) → Sends left m (again m)

  retried-Sends :
      (left : ℕ) (n m : Net backend) (out : Net backend × Result)
      → m.sent ≡ n.sent + 1
      → Sends left m out
      → (is_safe_verb c.verb ≡ false → IsUnreached (wire.answer n.sent))
      → Sends (suc left) n out
  unfolding Sends
  retried-Sends left n m out e (low, high, rest) first = (
    omega (arith, e, low),
    omega (arith, e, high),
    λ u k a b. elim (eq_or_lt n.sent k a) [
      | inl q ↦ rw (← q) (first u)
      | inr l ↦ rest u k (omega (arith, e, l)) b
    ],
  )

  stopped-Sends :
      (left : ℕ) (n : Net backend) (x : Net backend × Result)
      → x.0.sent ≡ n.sent + 1
      → Sends (suc left) n x
  unfolding Sends
  stopped-Sends left n x e =
      (omega (arith, e), omega (arith, e), λ u k a b. absurd (omega (arith, e, a, b)))

  unsent-Sends :
      (left : ℕ) (n : Net backend) (x : Net backend × Result) → x.0.sent ≡ n.sent → Sends left n x
  unfolding Sends
  unsent-Sends left n x e =
      (omega (arith, e), omega (arith, e), λ u k a b. absurd (omega (arith, e, a, b)))

  deferred-Sends :
      (left delay : ℕ) (r : Response Json) (d : backend.State × Option (Unit {0}))
      (n m : Net backend)
      → m.sent ≡ n.sent + 1
      → Sends (suc left) n (Attempt.deferred wire rules c delay r d m)
  deferred-Sends left delay r (s, none) n m e = stopped-Sends left n _ e
  deferred-Sends left delay r (s, some u) n m e = stopped-Sends left n _ e

  on_answer-Sends :
      (now left attempt : ℕ) (a : Answer) (n m : Net backend)
      (again : Net backend → Net backend × Result)
      → wire.answer n.sent ≡ a
      → m.sent ≡ n.sent + 1
      → Again left again
      → Sends (suc left) n (Attempt.on_answer wire rules c now left attempt a m again)
  unfolding Again
  on_answer-Sends now left attempt (broke exc) n m again w e h =
      elim (Bool-cases (may_retry c left exc)) [
        | inl q ↦ rw q (
            retried-Sends left n _ _ e (h exc q (record m { slept = m.slept + backoff attempt }))
              (λ u. rw w (retry_is_unreached c left exc q u)))
        | inr q ↦ rw q (stopped-Sends left n _ e)
      ]
  on_answer-Sends now left attempt (responded r) n m again w e h =
      let delay = min (cooldown_delay wire.headers now r attempt rules) 3600000 in
      elim (Bool-cases (r.status == 429 && c.retry_on_429)) [
        | inl q ↦
            rw q (deferred-Sends left delay r (defer_rules backend rules delay now m.limiter) n m e)
        | inr q ↦ rw q (elim (Bool-cases r.is_success) [
          | inl t ↦ rw t (stopped-Sends left n _ e)
          | inr t ↦ rw t (stopped-Sends left n _ e)
        ])
      ]

  if_Sends :
      (more : ℕ) (n : Net backend) (b : Bool) (x y : Net backend × Result)
      → Sends more n x
      → Sends more n y
      → Sends more n (if b then x else y)
  if_Sends more n true x y h g = h
  if_Sends more n false x y h g = g

  granted-Sends :
      (now left attempt : ℕ) (g : backend.State × Option (Bool × ℕ)) (n : Net backend)
      (again : Net backend → Net backend × Result)
      → Again left again
      → Sends (suc left) n (Attempt.if_granted wire rules c now left attempt g n again)
  granted-Sends now left attempt (s, none) n again h = unsent-Sends (suc left) n _ refl
  granted-Sends now left attempt (s, some (false, delay)) n again h =
      unsent-Sends (suc left) n _ refl
  granted-Sends now left attempt (s, some (true, delay)) n again h =
      on_answer-Sends now left attempt (wire.answer n.sent) n
        (record n { limiter = s; sent = n.sent + 1 }) again refl refl h

  round-Sends :
      (left attempt : ℕ) (n : Net backend) (again : Net backend → Net backend × Result)
      → Again left again
      → Sends (suc left) n (Attempt.round wire rules c left attempt n again)
  round-Sends left attempt n again h =
      let now = wire.clock n.sent in
      if_Sends (suc left) n c.rate_limit_preacquired _ _
        (on_answer-Sends now left attempt (wire.answer n.sent) n (record n { sent = n.sent + 1 })
          again refl refl h)
        (granted-Sends now left attempt (try_acquire backend rules now n.limiter) n again h)

  pub attempts-Sends :
      (left attempt : ℕ) (n : Net backend)
      → Sends (suc left) n (attempts wire rules c left attempt n)
  unfolding attempts Again may_retry
  attempts-Sends zero attempt n = round-Sends zero attempt n _ (λ exc q. cc q)
  attempts-Sends (suc left) attempt n =
      round-Sends (suc left) attempt n (λ m. attempts wire rules c left (attempt + 1) m)
        (λ exc q m. attempts-Sends left (attempt + 1) m)
