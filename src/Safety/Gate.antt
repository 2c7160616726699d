-- ===== src/Safety/Gate.antt =====
-- What the gate of app/core/safety.py lets through.
use mcp_yandex_cloud_infra.Prelude.{
  ◌≡◌, ◌≢◌, refl, inl, inr, ◌⊎◌, ◌↔◌, String, Bool, true, false, if◌then◌else◌, string_eq, ◌==◌,
  Option, none, some, arith, ◌||◌, ltb, Bool-cases, streq_iff,
}
use mcp_yandex_cloud_infra.Errors.{is_in}
use mcp_yandex_cloud_infra.Safety.{
  safety_levels, rank, verb_default, verb_floor, at_least, level_or, infer_safety, check_gate,
}

abbrev OneOfThree : String → Type 0
OneOfThree level = (level ≡ "read") ⊎ (level ≡ "write") ⊎ (level ≡ "destructive")

three_levels : (level : String) → is_in level safety_levels ≡ true → OneOfThree level
three_levels level h =
    ground (arith, streq_iff "read" level, streq_iff "write" level, streq_iff "destructive" level)

abbrev pub Passes : String → Bool → Bool → Type 0
Passes level confirm understood =
    (level ≡ "read")
    ⊎ ((level ≡ "write") × (confirm ≡ true))
    ⊎ ((level ≡ "destructive") × (confirm ≡ true) × (understood ≡ true))

abbrev Opens : String → Bool → Bool → Option String → Option String → Type 0
Opens level confirm understood op ep =
    (check_gate level confirm understood op ep ≡ none) ↔ Passes level confirm understood

gate_read :
    (confirm understood : Bool) (op ep : Option String) → Opens "read" confirm understood op ep
unfolding check_gate
gate_read confirm understood op ep = (λ h. inl refl, λ h. refl)

gate_write :
    (confirm understood : Bool) (op ep : Option String) → Opens "write" confirm understood op ep
unfolding check_gate
gate_write true understood op ep = (λ h. inr (inl (refl, refl)), λ h. refl)
gate_write false understood op ep =
    (λ h. cc, λ h. ground (arith, streq_iff "write" "read", streq_iff "write" "destructive"))

gate_destructive :
    (confirm understood : Bool) (op ep : Option String)
    → Opens "destructive" confirm understood op ep
unfolding check_gate
gate_destructive true true op ep = (λ h. inr (inr (refl, refl, refl)), λ h. refl)
gate_destructive true false op ep =
    (λ h. cc, λ h. ground (arith, streq_iff "destructive" "read", streq_iff "destructive" "write"))
gate_destructive false understood op ep =
    (λ h. cc, λ h. ground (arith, streq_iff "destructive" "read", streq_iff "destructive" "write"))

-- At one of the three levels, nothing is refused exactly when the level is `read`, or it is `write`
-- with the first confirmation, or it is `destructive` with both.
pub check_gate-Passes :
    (level : String) (confirm understood : Bool) (op ep : Option String)
    → is_in level safety_levels ≡ true
    → (check_gate level confirm understood op ep ≡ none) ↔ Passes level confirm understood
check_gate-Passes level confirm understood op ep h = elim (three_levels level h) [
  | inl r ↦ rw r (gate_read confirm understood op ep)
  | inr (inl w) ↦ rw w (gate_write confirm understood op ep)
  | inr (inr d) ↦ rw d (gate_destructive confirm understood op ep)
]

abbrev pub Mutates : String → Type 0
Mutates verb = (verb ≡ "PUT") ⊎ (verb ≡ "PATCH") ⊎ (verb ≡ "DELETE")

verb_default_known : (verb : String) → is_in (verb_default verb) safety_levels ≡ true
unfolding verb_default
verb_default_known verb = elim (Bool-cases (verb == "GET" || verb == "HEAD")) [
  | inl e ↦ rw e refl
  | inr n ↦ rw n (elim (Bool-cases (verb == "DELETE")) [ inl e ↦ rw e refl | inr m ↦ rw m refl ])
]

floored_known :
    (verb d : String)
    → is_in d safety_levels ≡ true
    → is_in (at_least (verb_floor verb) d) safety_levels ≡ true
unfolding verb_floor
floored_known verb d h =
    elim (Bool-cases (verb == "PUT" || (verb == "PATCH" || verb == "DELETE"))) [
      | inl e ↦
          rw e
            (elim (Bool-cases (ltb (rank d) (rank "write"))) [ inl l ↦ rw l refl | inr m ↦ rw m h ])
      | inr n ↦ rw n h
    ]

level_known :
    (declared : Option String) (verb : String) → is_in (level_or declared verb) safety_levels ≡ true
level_known none verb = verb_default_known verb
level_known (some d) verb = elim (Bool-cases (is_in d safety_levels)) [
  | inl e ↦ rw e (floored_known verb d e)
  | inr n ↦ rw n (verb_default_known verb)
]

level_kept :
    (d verb : String) → is_in d safety_levels ≡ true → ¬ Mutates verb → level_or (some d) verb ≡ d
unfolding verb_floor
level_kept d verb h free =
    let no_floor : verb == "PUT" || (verb == "PATCH" || verb == "DELETE") ≡ false =
      ground (arith, free, streq_iff verb "PUT", streq_iff verb "PATCH", streq_iff verb "DELETE") in
    rw (h, no_floor) refl

floored_not_read : (d : String) → is_in d safety_levels ≡ true → at_least (some "write") d ≢ "read"
unfolding rank
floored_not_read d h = elim (three_levels d h) [
  | inl r ↦ rw r (λ q. cc ((streq_iff "write" "read").1 q))
  | inr (inl w) ↦ rw w (λ q. cc ((streq_iff "write" "read").1 q))
  | inr (inr e) ↦ rw e (λ q. cc ((streq_iff "destructive" "read").1 q))
]

-- What a verb with a floor gives, whichever verb it is.
HasFloor : String → Type 0
HasFloor verb = (verb_floor verb ≡ some "write") × (verb_default verb ≢ "read")

Mutates-HasFloor : (verb : String) → Mutates verb → HasFloor verb
unfolding HasFloor verb_floor verb_default
Mutates-HasFloor verb (inl p) = rw p (refl, λ q. cc ((streq_iff "write" "read").1 q))
Mutates-HasFloor verb (inr (inl p)) = rw p (refl, λ q. cc ((streq_iff "write" "read").1 q))
Mutates-HasFloor verb (inr (inr p)) = rw p (refl, λ q. cc ((streq_iff "destructive" "read").1 q))

level_not_read :
    (declared : Option String) (verb : String) → HasFloor verb → level_or declared verb ≢ "read"
unfolding HasFloor
level_not_read none verb f = f.1
level_not_read (some d) verb f = elim (Bool-cases (is_in d safety_levels)) [
  | inl e ↦ rw (e, f.0) (floored_not_read d e)
  | inr n ↦ rw n f.1
]

-- Without the first confirmation only `read` passes.
unconfirmed_refused :
    (level : String) (understood : Bool) (op ep : Option String)
    → is_in level safety_levels ≡ true
    → level ≢ "read"
    → check_gate level false understood op ep ≢ none
unconfirmed_refused level understood op ep known not_read open_gate =
    elim ((check_gate-Passes level false understood op ep known).0 open_gate) [
      | inl r ↦ not_read r
      | inr (inl w) ↦ cc (w.1)
      | inr (inr d) ↦ cc (d.1)
    ]

-- The inferred level is one of the three; the level that the catalog declares is kept, if it is one
-- of the three and the verb is no PUT, PATCH or DELETE; and such a verb, whatever is declared, is
-- refused without the first confirmation.
pub infer_safety_guards :
    (upper : String → String) (method : String) (declared : Option String) (understood : Bool)
    (op ep : Option String)
    → let level = infer_safety upper method declared in
      let verb = if method == "" then "" else upper method in
      (is_in level safety_levels ≡ true)
      × ((d : String)
          → declared ≡ some d
          → is_in d safety_levels ≡ true
          → ¬ Mutates verb
          → level ≡ d)
      × (Mutates verb → check_gate level false understood op ep ≢ none)
unfolding infer_safety
infer_safety_guards upper method declared understood op ep =
    let verb = if method == "" then "" else upper method in
    (
      level_known declared verb,
      (λ d p h free. rw p (level_kept d verb h free)),
      λ m.
          unconfirmed_refused (level_or declared verb) understood op ep (level_known declared verb)
            (level_not_read declared verb (Mutates-HasFloor verb m)),
    )
