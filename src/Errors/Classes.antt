-- ===== src/Errors/Classes.antt =====
-- Which HTTP answers may be retried, by app/core/errors.py.
use mcp_yandex_cloud_infra.Prelude.{
  ℕ, ◌≤◌, ◌<◌, ◌≡◌, refl, inr, ◌⊎◌, ◌↔◌, String, true, ◌&&◌, none, inl, arith, nat_beq, ltb, leb,
  Bool-cases,
}
use mcp_yandex_cloud_infra.Errors.{error_types, is_in, make_error, classify_status}

classify_status_known : (status : ℕ) → is_in (classify_status status).0 error_types ≡ true
unfolding classify_status
classify_status_known status = elim (Bool-cases (nat_beq status 401)) [
  | inl e0 ↦ rw e0
  | inr n0 ↦ rw n0 (elim (Bool-cases (nat_beq status 403)) [
    | inl e1 ↦ rw e1
    | inr n1 ↦ rw n1 (elim (Bool-cases (nat_beq status 404)) [
      | inl e2 ↦ rw e2
      | inr n2 ↦ rw n2 (elim (Bool-cases (nat_beq status 409)) [
        | inl e3 ↦ rw e3
        | inr n3 ↦ rw n3 (elim (Bool-cases (nat_beq status 429)) [
          | inl e4 ↦ rw e4
          | inr n4 ↦ rw n4 (elim (Bool-cases (leb 500 status && ltb status 600)) [
            | inl e5 ↦ rw e5
            | inr n5 ↦ rw n5 (elim (Bool-cases (leb 400 status && ltb status 500)) [
              | inl e6 ↦ rw e6
              | inr n6 ↦ rw n6 (refl)
            ])
          ])
        ])
      ])
    ])
  ])
]

-- A status is classified as retryable exactly when it is 429 or 5xx, and the envelope that
-- `make_error` builds from the classification keeps its error type.
pub status_retryable :
    (status : ℕ) (message : String)
    → let c = classify_status status in
      ((c.1 ≡ true) ↔ ((status ≡ 429) ⊎ (500 ≤ status) × (status < 600)))
      × ((make_error c.0 message none none none c.1 none none).error_type ≡ c.0)
status_retryable status message =
    (unfold classify_status in ground arith, unfold make_error in rw (classify_status_known status))
