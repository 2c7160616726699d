-- ===== src/Client/Guards.antt =====
-- What `MarketplaceClient.request` of app/core/client.py sends, and what it refuses to send.
use mcp_yandex_cloud_infra.Prelude.{
  ℕ, ◌+◌, ◌≤◌, ◌<◌, ◌≡◌, ◌⊎◌, String, false, [], In, nat_eq, string_eq,
}
use mcp_yandex_cloud_infra.Text.{append, strip_left, IsWithout}
use mcp_yandex_cloud_infra.Dict.{Dict}
use mcp_yandex_cloud_infra.RateLimit.Controller.{Backend}
use mcp_yandex_cloud_infra.Client.Attempt.{Call, Net, Result, Wire, is_safe_verb}
use mcp_yandex_cloud_infra.Client.Request
use mcp_yandex_cloud_infra.Client.Request.{Service, url_host}
use mcp_yandex_cloud_infra.Client.Retries.{IsUnreached}

-- What a call may have sent.
abbrev IsBounded : {backend : Backend} → Wire → Call → Net backend → Net backend × Result → Type 0
IsBounded wire c n x =
    (x.0.sent ≤ n.sent + 5)
    × (is_safe_verb c.verb ≡ false
        → (k : ℕ) → n.sent ≤ k
        → k + 1 < x.0.sent
        → IsUnreached (wire.answer k))

-- A host is one of the allowed names, or under one of them; without an allowlist any host is.
abbrev pub IsInside : Service → String → Type 0
IsInside s h =
    (s.allowed_host_suffixes ≡ [])
    ⊎ ((suffix : String) × (In suffix s.allowed_host_suffixes
          × ((h ≡ strip_left "." suffix)
              ⊎ ((m : String) × (h ≡ append m (append "." (strip_left "." suffix)))))))

-- A host that is written in lower case, and names neither a port nor anything else after a colon or a
-- slash.
abbrev pub IsPlain : Service → String → Type 0
IsPlain s host =
    (s.lower (s.strip host) ≡ s.strip host)
    × (IsWithout "/" (url_host s host) × IsWithout ":" (url_host s host))
