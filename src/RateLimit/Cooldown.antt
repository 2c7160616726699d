-- ===== src/RateLimit/Cooldown.antt =====
-- What a cooldown after an upstream 429 blocks: `GlobalRateController.defer` of
-- app/core/rate_limit.py on the SQLite backend.
use mcp_yandex_cloud_infra.Prelude.{
  ℕ, ◌+◌, ◌≤◌, ◌<◌, ◌≡◌, refl, inl, inr, String, true, false, List, [], ◌∷◌, map, In, In-keep_if,
  In-of_keep_if, In-map, In-of_map, arith, ◌∙◌, ltb, string_eq, streq_iff,
}
use mcp_yandex_cloud_infra.RateLimit.Rules.{RateRule}
use mcp_yandex_cloud_infra.RateLimit.Sqlite.{SlotTable, raise_to, defer_sqlite}
use mcp_yandex_cloud_infra.RateLimit.Spacing.{slot, slot-defer_sqlite}
use mcp_yandex_cloud_infra.RateLimit.Controller.{
  is_global, is_empty, normalized, specific_of, deferred_keys, defer_rules, sqlite_backend,
}
use mcp_yandex_cloud_infra.Text.{ends_with}

is_empty_of_In : {A : Type 0} (a : A) (xs : List A) → In a xs → is_empty xs ≡ false
is_empty_of_In a [] m = absurd m
is_empty_of_In a (x ∷ xs) m = refl

-- With a specific rule among them, the keys that are held back are those of the specific rules.
module _ (r : RateRule) (rules : List RateRule) (m : In r rules) (pos : 0 < r.interval)
    (h : is_global r ≡ false) where
  specific : List RateRule
  specific = specific_of (normalized rules)

  In-specific : In r specific
  unfolding specific
  In-specific =
      In-keep_if _ r (normalized rules) (In-keep_if _ r rules m (ground arith)) (ground arith)

  deferred_keys-eq-specific : deferred_keys rules ≡ map (λ x. x.key) specific
  unfolding deferred_keys specific
  deferred_keys-eq-specific =
      rw (is_empty_of_In r (specific_of (normalized rules)) (unfold specific in In-specific))

  In-deferred_keys : In r.key (deferred_keys rules)
  In-deferred_keys = rw deferred_keys-eq-specific (In-map (λ x. x.key) r specific In-specific)

  not-global_of_In : (k : String) → In k (deferred_keys rules) → ends_with ":global" k ≡ false
  unfolding is_global specific
  not-global_of_In k n =
      let (x, i, e) =
        In-of_map (λ (x : RateRule). x.key) k specific (rw deferred_keys-eq-specific at n) in
      let (_, q) = In-of_keep_if _ x (normalized rules) i in rw (← e) (ground (arith, q))

module _ (db : SlotTable) where
  slot-defer_other :
      (k : String) (js : List String) (seconds now : ℕ) (t : db.Table)
      → ¬ In k js
      → slot db k (defer_sqlite db js seconds now t) ≡ slot db k t
  unfolding defer_sqlite
  slot-defer_other k [] seconds now t h = refl
  slot-defer_other k (j ∷ js) seconds now t h =
      let v = raise_to (db.next_at j t) (now + seconds) in
      slot-defer_other k js seconds now (db.upsert j v t) (λ m. h (inr m))
      ∙ ground (arith, db.next_at-upsert j k v t, streq_iff j k, h)

  le-slot-defer :
      (k : String) (js : List String) (seconds now : ℕ) (t : db.Table)
      → In k js
      → now + seconds ≤ slot db k (defer_sqlite db js seconds now t)
  unfolding defer_sqlite
  le-slot-defer k [] seconds now t m = absurd m
  le-slot-defer k (j ∷ js) seconds now t (inl e) =
      let v = raise_to (db.next_at j t) (now + seconds) in
      let u = db.upsert j v t in
      ground
        (arith, db.next_at-upsert j k v t, streq_iff j k, slot-defer_sqlite db k js seconds now u)
  le-slot-defer k (j ∷ js) seconds now t (inr m) =
      le-slot-defer k js seconds now (db.upsert j (raise_to (db.next_at j t) (now + seconds)) t) m

  -- A cooldown of `seconds` over rules that hold a specific one: the key of every specific rule with a positive interval is
  -- held back until `now + seconds` at least, and no key that ends in `:global` is touched.
  pub cooldown_is_specific :
      (r : RateRule) (rules : List RateRule) (seconds now : ℕ) (t : db.Table)
      → In r rules
      → 0 < r.interval
      → is_global r ≡ false
      → 0 < seconds
      → let t' = (defer_rules (sqlite_backend db) rules seconds now t).0 in
        (now + seconds ≤ slot db r.key t')
        × ((k : String) → ends_with ":global" k ≡ true → slot db k t' ≡ slot db k t)
  unfolding defer_rules
  cooldown_is_specific r rules seconds now t m pos h late =
      let named = In-deferred_keys r rules m pos h in
      let keys = deferred_keys rules in
      let nonempty = is_empty_of_In r.key keys named in
      let busy : ltb 0 seconds ≡ true = ground arith in
      rw (nonempty, busy)
        (
          le-slot-defer r.key keys seconds now t named,
          λ k g.
              slot-defer_other k keys seconds now t
                (λ n. cc (g, not-global_of_In r rules m pos h k n)),
        )
