-- ===== src/Upload/Act.antt =====
-- The operations of an upload step: state with the two kinds of error, and the requests.
use mcp_yandex_cloud_infra.Prelude.{ℕ, String, Bool, ◌∷◌, string_eq}
use mcp_yandex_cloud_infra.Finance.Csv.{Library}
use mcp_yandex_cloud_infra.Upload.Remote.{
  Outcome, value, storage_error, runtime_error, Memory, Exchange,
}

-- An operation on the memory.
abbrev pub Act : Library → Type 0 → Type 0 → Type 0
Act lib C A = Memory lib C → Outcome A × Memory lib C

module _ {lib : Library} {C : Type 0} where
  abbrev pub then_do :
      {A B : Type 0} → (A → Act lib C B) → Outcome A × Memory lib C → Outcome B × Memory lib C
  then_do f (value a, m) = f a m
  then_do f (storage_error e, m) = (storage_error e, m)
  then_do f (runtime_error e, m) = (runtime_error e, m)

  infixl 5 ◌>>=◌ ◌>>◌
  abbrev pub ◌>>=◌ : {A B : Type 0} → Act lib C A → (A → Act lib C B) → Act lib C B
  ◌>>=◌ act f m = then_do f (act m)

  abbrev pub ◌>>◌ : {A B : Type 0} → Act lib C A → Act lib C B → Act lib C B
  ◌>>◌ act next m = then_do (λ _. next) (act m)

  abbrev pub give : {A : Type 0} → A → Act lib C A
  give a m = (value a, m)

  -- `raise ResumableUploadError(...)`, and `raise RuntimeError(...)`
  abbrev pub refuse : {A : Type 0} → String → Bool → ℕ → Act lib C A
  refuse message retryable later m =
      (storage_error (record { message = message; retryable = retryable; retry_after = later }), m)

  abbrev pub fail_with : {A : Type 0} → String → Act lib C A
  fail_with message m = (runtime_error message, m)

  abbrev pub read : Act lib C (Memory lib C)
  read m = (value m, m)

  abbrev pub change : (Memory lib C → Memory lib C) → Act lib C (Unit {0})
  change f m = (value tt, f m)

  -- A request to the cloud.
  abbrev pub on_cloud : {A : Type 0} → (C → Outcome A × C) → Act lib C A
  on_cloud f m = ((f m.cloud).0, record m { cloud = (f m.cloud).1 })

  abbrev pub noted : Exchange lib.Bytes → Memory lib C → Memory lib C
  noted e m = record m { log = e ∷ m.log }

  abbrev pub note : Exchange lib.Bytes → Act lib C (Unit {0})
  note e = change (noted e)
