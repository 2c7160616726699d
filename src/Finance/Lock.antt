-- ===== src/Finance/Lock.antt =====
-- app/core/wb_finance_archive.py: `ArchiveLock`, on one Redis store. A value carries the time at
-- which it expires; times are seconds.
pub mod Excludes
use mcp_yandex_cloud_infra.Prelude.{
  ℕ, ◌+◌, ◌≡◌, ◌≢◌, max, String, Bool, true, false, not, Option, none, some, List, [], ◌∷◌, map, In,
  keep_if, ltb, string_eq, ◌==◌, if◌then◌else◌,
}
use mcp_yandex_cloud_infra.Dict.{Dict, lookup, insert, delete}

abbrev pub Store : Type 0
Store = Dict String (String × ℕ)

-- A value that has not expired.
abbrev pub alive : ℕ → Option (String × ℕ) → Option String
alive now none = none
alive now (some (token, until)) = if ltb now until then some token else none

-- `GET`
unfoldable pub get_key : String → ℕ → Store → Option String
unfolding lookup
get_key key now s = alive now (lookup key s)

abbrev pub set_unless : String → String → ℕ → Store → Option String → Bool × Store
set_unless key token until s none = (true, insert key (token, until) s)
set_unless key token until s (some other) = (false, s)

-- `max(60, int(ttl_seconds))`
abbrev pub ttl_of : ℕ → ℕ
ttl_of ttl_seconds = max 60 ttl_seconds

-- `__aenter__`: SET with NX and EX; false is the error that the update is already running.
unfoldable pub enter : String → String → ℕ → ℕ → Store → Bool × Store
unfolding get_key insert
enter key token ttl_seconds now s =
    set_unless key token (now + ttl_of ttl_seconds) s (get_key key now s)

abbrev pub delete_own : String → String → Store → Option String → Store
delete_own key token s none = s
delete_own key token s (some other) = if other == token then delete key s else s

-- `__aexit__`, by RELEASE_SCRIPT: compare and delete.
unfoldable pub exit : String → String → ℕ → Store → Store
unfolding get_key delete
exit key token now s = delete_own key token s (get_key key now s)

-- The workers that are inside, each with its token and the end of its time to live.
pub record Shared : Type 0 where
  pub now : ℕ
  pub store : Store
  pub inside : List (String × ℕ)

abbrev pub tokens_of : List (String × ℕ) → List String
tokens_of holders = map (λ h. h.0) holders

abbrev pub without : String → List (String × ℕ) → List (String × ℕ)
without token holders = keep_if (λ h. not (h.0 == token)) holders

-- What may happen: a worker enters with a new token, one leaves, and time passes. A worker that is
-- refused changes nothing.
pub data Step (key : String) (ttl_seconds : ℕ) : Shared → Shared → Type 0 where
  enters :
      (token : String) (s : Shared)
      → ¬ In token (tokens_of s.inside)
      → (enter key token ttl_seconds s.now s.store).0 ≡ true
      → Step key ttl_seconds s (record s {
        store = (enter key token ttl_seconds s.now s.store).1;
        inside = (token, s.now + ttl_of ttl_seconds) ∷ s.inside;
      })
  leaves :
      (token : String) (s : Shared)
      → Step key ttl_seconds s
          (record s { store = exit key token s.now s.store; inside = without token s.inside })
  waits : (d : ℕ) (s : Shared) → Step key ttl_seconds s (record s { now = s.now + d })

-- The states that some steps lead to.
pub data Reach (key : String) (ttl_seconds : ℕ) (start : Shared) : Shared → Type 0 where
  here : Reach key ttl_seconds start start
  later :
      (s t : Shared)
      → Reach key ttl_seconds start s
      → Step key ttl_seconds s t
      → Reach key ttl_seconds start t
