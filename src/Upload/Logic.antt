-- ===== src/Upload/Logic.antt =====
-- Triples for the operations of an upload step: from a memory of `P` a value lands in `Q`, an error
-- of either kind in `E`.
use mcp_yandex_cloud_infra.Prelude.{ℕ, ◌≡◌, refl, String, Bool, true, false, if◌then◌else◌}
use mcp_yandex_cloud_infra.Finance.Csv.{Library}
use mcp_yandex_cloud_infra.Upload.Remote.{Outcome, value, storage_error, runtime_error, Memory}
use mcp_yandex_cloud_infra.Upload.Act.{
  Act, then_do, ◌>>=◌, ◌>>◌, give, refuse, fail_with, read, change, on_cloud,
}

module _ {lib : Library} {C : Type 0} where
  unfoldable pub Lands :
      {A : Type 0}
      → (A → Memory lib C → Type 0)
      → (Memory lib C → Type 0)
      → Outcome A × Memory lib C
      → Type 0
  Lands Q E (value a, m) = Q a m
  Lands Q E (storage_error e, m) = E m
  Lands Q E (runtime_error e, m) = E m

  pub record Runs {A : Type 0} (P : Memory lib C → Type 0) (act : Act lib C A)
      (Q : A → Memory lib C → Type 0) (E : Memory lib C → Type 0) : Type 0 where
    pub runs : (m : Memory lib C) → P m → Lands Q E (act m)

  land_next :
      {A B : Type 0} (E : Memory lib C → Type 0) (Q : A → Memory lib C → Type 0)
      (R : B → Memory lib C → Type 0) (f : A → Act lib C B) (o : Outcome A × Memory lib C)
      → Lands Q E o
      → ((a : A) → Runs (Q a) (f a) R E)
      → Lands R E (then_do f o)
  unfolding Lands
  land_next E Q R f (value a, m) h g = (g a).runs m h
  land_next E Q R f (storage_error e, m) h g = h
  land_next E Q R f (runtime_error e, m) h g = h

  pub if_Lands :
      {A : Type 0} (Q : A → Memory lib C → Type 0) (E : Memory lib C → Type 0) (b : Bool)
      (x y : Outcome A × Memory lib C)
      → (b ≡ true → Lands Q E x)
      → (b ≡ false → Lands Q E y)
      → Lands Q E (if b then x else y)
  if_Lands Q E true x y h g = h refl
  if_Lands Q E false x y h g = g refl

  module _ {P E : Memory lib C → Type 0} where
    pub give-Runs :
        {A : Type 0} {Q : A → Memory lib C → Type 0} (a : A)
        → ((m : Memory lib C) → P m → Q a m)
        → Runs P (give a) Q E
    unfolding Lands
    give-Runs a h = record { runs = λ m p. h m p }

    pub value-Runs :
        {A : Type 0} {Q : A → Memory lib C → Type 0} (f : Memory lib C → A)
        → ((m : Memory lib C) → P m → Q (f m) m)
        → Runs P (λ m. (value (f m), m)) Q E
    unfolding Lands
    value-Runs f h = record { runs = λ m p. h m p }

    pub refuse-Runs :
        {A : Type 0} {Q : A → Memory lib C → Type 0} (e : String) (b : Bool) (n : ℕ)
        → ((m : Memory lib C) → P m → E m)
        → Runs P (refuse e b n) Q E
    unfolding Lands
    refuse-Runs e b n h = record { runs = λ m p. h m p }

    pub fail-Runs :
        {A : Type 0} {Q : A → Memory lib C → Type 0} (e : String)
        → ((m : Memory lib C) → P m → E m)
        → Runs P (fail_with e) Q E
    unfolding Lands
    fail-Runs e h = record { runs = λ m p. h m p }

    pub if_Runs :
        {A : Type 0} {Q : A → Memory lib C → Type 0} (b : Bool) {x y : Act lib C A}
        → (b ≡ true → Runs P x Q E)
        → (b ≡ false → Runs P y Q E)
        → Runs P (if b then x else y) Q E
    if_Runs true h g = h refl
    if_Runs false h g = g refl

    pub bind-Runs :
        {A B : Type 0} (Q : A → Memory lib C → Type 0) {R : B → Memory lib C → Type 0}
        {act : Act lib C A} {f : A → Act lib C B}
        → Runs P act Q E
        → ((a : A) → Runs (Q a) (f a) R E)
        → Runs P (act >>= f) R E
    unfolding Lands
    bind-Runs Q {R = R} {act = act} {f = f} h g = record {
      runs = λ m p. land_next E Q R f (act m) (h.runs m p) g;
    }

    pub seq-Runs :
        {A B : Type 0} (Q : Memory lib C → Type 0) {R : B → Memory lib C → Type 0}
        {act : Act lib C A} {next : Act lib C B}
        → Runs P act (λ _. Q) E
        → Runs Q next R E
        → Runs P (act >> next) R E
    unfolding Lands
    seq-Runs Q {R = R} {act = act} {next = next} h g = record {
      runs = λ m p. land_next E (λ _. Q) R (λ _. next) (act m) (h.runs m p) (λ _. g);
    }

    -- A change of the memory, and then the rest.
    pub change-Runs :
        {B : Type 0} {R : B → Memory lib C → Type 0} (Q : Memory lib C → Type 0)
        (f : Memory lib C → Memory lib C) {next : Act lib C B}
        → ((m : Memory lib C) → P m → Q (f m))
        → Runs Q next R E
        → Runs P (change f >> next) R E
    unfolding Lands
    change-Runs Q f h g = record { runs = λ m p. g.runs (f m) (h m p) }

    pub two_changes-Runs :
        {B : Type 0} {R : B → Memory lib C → Type 0} (Q : Memory lib C → Type 0)
        (f g : Memory lib C → Memory lib C) {next : Act lib C B}
        → ((m : Memory lib C) → P m → Q (g (f m)))
        → Runs Q next R E
        → Runs P (change f >> (change g >> next)) R E
    two_changes-Runs Q f g h k = record { runs = λ m p. k.runs (g (f m)) (h m p) }

    pub read-Runs :
        {B : Type 0} {R : B → Memory lib C → Type 0} (f : Memory lib C → Act lib C B)
        → ((n : Memory lib C) → P n → Runs (λ m. (m ≡ n) × P m) (f n) R E)
        → Runs P (read >>= f) R E
    unfolding Lands
    read-Runs f g = record { runs = λ m p. (g m p).runs m (refl, p) }

    -- A part of the precondition that the memory does not matter for.
    pub given-Runs :
        {A F : Type 0} {Q : A → Memory lib C → Type 0} {act : Act lib C A}
        → (F → Runs P act Q E)
        → Runs (λ m. F × P m) act Q E
    given-Runs g = record { runs = λ m p. (g p.0).runs m p.1 }

    pub before-Runs :
        {A : Type 0} {Q : A → Memory lib C → Type 0} {P' : Memory lib C → Type 0}
        {act : Act lib C A}
        → ((m : Memory lib C) → P m → P' m)
        → Runs P' act Q E
        → Runs P act Q E
    before-Runs h g = record { runs = λ m p. g.runs m (h m p) }

  cloud-Lands :
      {A : Type 0} (Q E : Memory lib C → Type 0) (o : Outcome A) (m : Memory lib C)
      → Q m
      → E m
      → Lands {A = A} (λ _. Q) E (o, m)
  unfolding Lands
  cloud-Lands Q E (value a) m q e = q
  cloud-Lands Q E (storage_error x) m q e = e
  cloud-Lands Q E (runtime_error x) m q e = e

  -- A request to the cloud changes nothing else.
  pub cloud-Runs :
      {A : Type 0} {P E : Memory lib C → Type 0} (f : C → Outcome A × C)
      → ((m : Memory lib C) (c : C) → P m → P (record m { cloud = c }))
      → ((m : Memory lib C) → P m → E m)
      → Runs P (on_cloud f) (λ _. P) E
  cloud-Runs {P = P} {E = E} f h g = record {
    runs = λ m p. let q = h m (f m.cloud).1 p in cloud-Lands P E (f m.cloud).0 _ q (g _ q);
  }

  -- What both ends say of the memory.
  pub landed :
      {A : Type 0} (Q : A → Memory lib C → Type 0) (E G : Memory lib C → Type 0)
      (o : Outcome A × Memory lib C)
      → ((a : A) (m : Memory lib C) → Q a m → G m)
      → ((m : Memory lib C) → E m → G m)
      → Lands Q E o
      → G o.1
  unfolding Lands
  landed Q E G (value a, m) h g l = h a m l
  landed Q E G (storage_error e, m) h g l = g m l
  landed Q E G (runtime_error e, m) h g l = g m l

  pub Lands-weaken :
      {A : Type 0} (Q R : A → Memory lib C → Type 0) (E F : Memory lib C → Type 0)
      (o : Outcome A × Memory lib C)
      → ((a : A) (m : Memory lib C) → Q a m → R a m)
      → ((m : Memory lib C) → E m → F m)
      → Lands Q E o
      → Lands R F o
  unfolding Lands
  Lands-weaken Q R E F (value a, m) h g l = h a m l
  Lands-weaken Q R E F (storage_error e, m) h g l = g m l
  Lands-weaken Q R E F (runtime_error e, m) h g l = g m l

  pub errors-Runs :
      {A : Type 0} {P : Memory lib C → Type 0} {Q : A → Memory lib C → Type 0}
      {E : Memory lib C → Type 0} {E' : Memory lib C → Type 0} {act : Act lib C A}
      → ((m : Memory lib C) → E m → E' m)
      → Runs P act Q E
      → Runs P act Q E'
  errors-Runs {Q = Q} {E = E} {E' = E'} {act = act} h g = record {
    runs = λ m p. Lands-weaken Q Q E E' (act m) (λ a n q. q) h (g.runs m p);
  }
