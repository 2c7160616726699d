-- ===== src/Finance/Lock/Excludes.antt =====
-- The workers that are inside `ArchiveLock` of app/core/wb_finance_archive.py.
use mcp_yandex_cloud_infra.Prelude.{
  ℕ, ◌+◌, ◌<◌, ◌≡◌, ◌≢◌, inl, inr, refl, ap, ◌∙◌, String, true, false, not, Option, none, some, [],
  ◌∷◌, In, In-of_keep_if, arith, string_eq, ◌==◌, streq_iff,
}
use mcp_yandex_cloud_infra.Dict.{lookup, lookup-insert}
use mcp_yandex_cloud_infra.Finance.Lock.{
  Store, get_key, set_unless, ttl_of, enter, delete_own, exit, Shared, without, Step, enters,
  leaves, waits, Reach, here, later,
}

module _ (key : String) (ttl_seconds : ℕ) where
  -- A worker inside its time to live has the key.
  unfoldable pub IsHeld : Shared → Type 0
  unfolding lookup
  IsHeld s = (h : String × ℕ) → In h s.inside → s.now < h.1 → lookup key s.store ≡ some h

  held_is-Alive :
      (s : Shared) (h : String × ℕ)
      → lookup key s.store ≡ some h
      → s.now < h.1
      → get_key key s.now s.store ≡ some h.0
  unfolding get_key
  held_is-Alive s h e l = rw e (ground (arith, l))

  set_fresh :
      (token : String) (until : ℕ) (store : Store) (o : Option String)
      → (set_unless key token until store o).0 ≡ true
      → (o ≡ none) × (lookup key (set_unless key token until store o).1 ≡ some (token, until))
  set_fresh token until store none e =
      (refl, ground (arith, lookup-insert key key (token, until) store, streq_iff key key))
  set_fresh token until store (some other) e = cc e

  entered :
      (token : String) (s : Shared)
      → (enter key token ttl_seconds s.now s.store).0 ≡ true
      → (get_key key s.now s.store ≡ none)
        × (lookup key (enter key token ttl_seconds s.now s.store).1
            ≡ some (token, s.now + ttl_of ttl_seconds))
  unfolding enter
  entered token s e =
      set_fresh token (s.now + ttl_of ttl_seconds) s.store (get_key key s.now s.store) e

  enters-IsHeld :
      (token : String) (s : Shared)
      → (enter key token ttl_seconds s.now s.store).0 ≡ true
      → IsHeld s
      → IsHeld (record s {
        store = (enter key token ttl_seconds s.now s.store).1;
        inside = (token, s.now + ttl_of ttl_seconds) ∷ s.inside;
      })
  unfolding IsHeld
  enters-IsHeld token s e h k (inl q) l = (entered token s e).1 ∙ ap some q
  enters-IsHeld token s e h k (inr m) l = cc ((entered token s e).0, held_is-Alive s k (h k m l) l)

  kept_other :
      (token : String) (store : Store) (other : String) (k : String × ℕ)
      → other ≢ token
      → lookup key store ≡ some k
      → lookup key (delete_own key token store (some other)) ≡ some k
  kept_other token store other k n e =
      let differs : (other == token) ≡ false = ground (arith, n, streq_iff other token) in
      rw differs e

  leaves-IsHeld :
      (token : String) (s : Shared)
      → IsHeld s
      → IsHeld (record s { store = exit key token s.now s.store; inside = without token s.inside })
  unfolding IsHeld exit
  leaves-IsHeld token s h k m l =
      let (i, f) = In-of_keep_if (λ c. not (c.0 == token)) k s.inside m in
      let e = h k i l in
      rw (held_is-Alive s k e l)
        (kept_other token s.store k.0 k (ground (arith, f, streq_iff k.0 token)) e)

  step-IsHeld : (s t : Shared) → Step key ttl_seconds s t → IsHeld s → IsHeld t
  unfolding IsHeld
  step-IsHeld _ _ (enters token s n e) h = enters-IsHeld token s e h
  step-IsHeld _ _ (leaves token s) h = leaves-IsHeld token s h
  step-IsHeld _ _ (waits d s) h = λ k m l. h k m (omega (arith, l))

  reach-IsHeld : (start t : Shared) → start.inside ≡ [] → Reach key ttl_seconds start t → IsHeld t
  unfolding IsHeld
  reach-IsHeld start _ e here = λ k m l. absurd (rw e at m)
  reach-IsHeld start _ e (later s t p q) = step-IsHeld s t q (reach-IsHeld start s e p)

  -- From a time when nobody was inside, whatever enters, leaves and waits follow: two workers that
  -- are inside and within their times to live are one, and the lock still has its token.
  pub lock_excludes :
      (start t : Shared) (a b : String × ℕ)
      → start.inside ≡ []
      → Reach key ttl_seconds start t
      → In a t.inside
      → In b t.inside
      → t.now < a.1
      → t.now < b.1
      → (a ≡ b) × (get_key key t.now t.store ≡ some a.0)
  unfolding IsHeld
  lock_excludes start t a b e p i j l m =
      let held = reach-IsHeld start t e p in
      (cc (held a i l, held b j m), held_is-Alive t a (held a i l) l)
