-- ===== src/Plugin/Limit/Flight.antt =====
-- Requests under way below a limit: pingap-plugin/src/limit.rs.
use pingap.Common.{
  ℕ, ◌+◌, ◌-◌, ◌^◌, ◌<◌, ◌≤◌, ◌≡◌, refl, sym, ap, subst, ◌∙◌, inl, inr, Bool, true, false, Option,
  none, some, [], ◌∷◌, ◌++◌, arith, min,
}
use pingap.Common.Tests.{◌==◌, if◌then◌else◌, Bool-cases}
use pingap.Common.Text.{Str, str_eq, str_eq_iff, is_empty}
use pingap.Common.Results.{Result, ok, err}
use pingap.Core.Ctx.{Guard, Ctx}
use pingap.Core.Plugin.{request, Session}
use pingap.External.{HttpLib}
use pingap.Plugin.CombinedAuth.{lt_i64}
use pingap.Plugin.Limit.Guards.{
  Flights, one_if, held, let_through, let_through-held, held-append, let_through-append,
}
use pingap.Plugin.Limit.{
  LimitLib, LimitTag, Counts, store, drop_guard, Limiter, key_of, track, incr, handle_request,
}

module _ (lib : LimitLib) where
  -- What the program relies on: each state counts the guards of a key, and a raise returns at least
  -- the new count, or the largest isize. The crate's counts are estimates that are never less.
  pub record IsCounter : Type 0 where
    pub count : lib.Inflight → Str → ℕ
    pub count-raise :
        (s : lib.Inflight) (key k : Str)
        → count (lib.raise s key).0 k ≡ one_if (str_eq key k) + count s k
    pub count-release :
        (s : lib.Inflight) (key k : Str)
        → count (lib.release s key) k ≡ count s k - one_if (str_eq key k)
    pub raise-value :
        (s : lib.Inflight) (key : Str)
        → min (count (lib.raise s key).0 key) (2 ^ 63 - 1) ≤ (lib.raise s key).1
    pub raise-bound : (s : lib.Inflight) (key : Str) → (lib.raise s key).1 < 2 ^ 63

  -- The counter under a number, and the guards that are held of it.
  module _ (http : HttpLib) (id : ℕ) where
    abbrev pub owns : Option Guard → Bool
    owns none = false
    owns (some guard) = guard.counter == id

    -- The guards after a request, with the one that its context holds then.
    abbrev pub passed : Bool → Flights → Option Guard → Flights
    passed through flights none = flights
    passed through flights (some guard) =
        if guard.counter == id then (guard.key, through) ∷ flights else flights

    abbrev pub is_ok : {A B : Type 0} → Result A (Bool × Option B) → Bool
    is_ok (ok (executed, none)) = true
    is_ok (ok (executed, some answer)) = false
    is_ok (err e) = false

    -- Requests that hold no guard of the counter come to the handler, guards are dropped, and other
    -- counters change, in any order, from a state without guards.
    pub data Reach (self : Limiter http lib) (start : Counts http lib)
        : Counts http lib → Flights → Type 0 where
      begins : Reach self start start []
      comes :
          {counts : Counts http lib} {flights : Flights} (session : Session) (ctx : Ctx)
          → owns ctx.guard ≡ false
          → Reach self start counts flights
          → Reach self start (handle_request http lib self request session counts ctx).1 (
              passed
                (is_ok (handle_request http lib self request session counts ctx).2.2)
                flights
                (handle_request http lib self request session counts ctx).2.1.guard)
      ends :
          {counts : Counts http lib} (before after : Flights) (key : Str) (through : Bool)
          → Reach self start counts (before ++ ((key, through) ∷ after))
          → Reach self start
              (drop_guard http lib (some (record { counter = id; key = key })) counts)
              (before ++ after)
      elsewhere :
          {counts counts' : Counts http lib} {flights : Flights}
          → Reach self start counts flights
          → counts' id ≡ counts id
          → Reach self start counts' flights

    drop_guard-other :
        (guard : Option Guard) (counts : Counts http lib)
        → owns guard ≡ false
        → drop_guard http lib guard counts id ≡ counts id
    unfolding drop_guard store
    drop_guard-other none counts other = refl
    drop_guard-other (some guard) counts other = ground arith

    store-same : (s : lib.Inflight) (counts : Counts http lib) → store http lib id s counts id ≡ s
    unfolding store
    store-same s counts = ground arith

    key_of-guard :
        (self : Limiter http lib) (session : Session) (ctx : Ctx)
        → (key_of http lib self session ctx).0.guard ≡ ctx.guard
    unfolding key_of
    key_of-guard self session ctx = ground arith

    module _ (laws : IsCounter) (tag : LimitTag) (max : ℕ) (name : Str) (weight : ℕ)
        (small : max < 2 ^ 63 - 1) where
      abbrev pub by_inflight : Limiter http lib
      by_inflight = record {
        tag = tag;
        max = max;
        key = name;
        inflight = some id;
        rate = none;
        plugin_step = request;
        weight = weight;
      }

      -- The counter counts at least the guards, and at most max requests were let through.
      abbrev pub IsLimited : Counts http lib → Flights → Type 0
      IsLimited counts flights =
          ((k : Str) → held k flights ≤ laws.count (counts id) k)
          × ((k : Str) → let_through k flights ≤ max)

      lt_i64-small : (v : ℕ) → v < 2 ^ 63 → lt_i64 max v ≡ false → v ≤ max
      lt_i64-small v h e = ground arith

      raised :
          (s : lib.Inflight) (key k : Str) (flights : Flights)
          → ((j : Str) → held j flights ≤ laws.count s j)
          → one_if (str_eq key k) + held k flights ≤ laws.count (lib.raise s key).0 k
      raised s key k flights counts =
          let c = counts k in let r = laws.count-raise s key k in omega arith

      admitted :
          (s : lib.Inflight) (key k : Str) (flights : Flights)
          → ((j : Str) → held j flights ≤ laws.count s j)
          → ((j : Str) → let_through j flights ≤ max)
          → lt_i64 max (lib.raise s key).1 ≡ false
          → one_if (str_eq key k) + let_through k flights ≤ max
      admitted s key k flights counts limits below = elim (Bool-cases (str_eq key k)) [
        | inr other ↦ rw other (ground (arith, limits k))
        | inl same ↦
            let e = (str_eq_iff key k).0 same in
            let at_key : min (laws.count (lib.raise s key).0 k) (2 ^ 63 - 1) ≤ (lib.raise s key).1 =
              subst (λ j. min (laws.count (lib.raise s key).0 j) (2 ^ 63 - 1) ≤ (lib.raise s key).1)
                e (laws.raise-value s key) in
            let v = lt_i64-small (lib.raise s key).1 (laws.raise-bound s key) below in
            let r = raised s key k flights counts in
            let t = let_through-held k flights in omega arith
      ]

      incr_of_empty :
          (counts : Counts http lib) (session : Session) (ctx : Ctx)
          → is_empty (key_of http lib by_inflight session ctx).1 ≡ true
          → incr http lib by_inflight session counts ctx
            ≡ (by_inflight, counts, (key_of http lib by_inflight session ctx).0, ok tt)
      unfolding incr
      incr_of_empty counts session ctx nothing = rw (incr, nothing) refl

      abbrev counted_under :
          Counts http lib
          → Session
          → Ctx
          → Result ℕ (Unit {0})
          → Limiter http lib × Counts http lib × Ctx × Result ℕ (Unit {0})
      counted_under counts session ctx result =
          let (ctx', key) = key_of http lib by_inflight session ctx in
          (
            by_inflight,
            drop_guard http lib ctx'.guard (store http lib id (lib.raise (counts id) key).0 counts),
            record ctx' { guard = some (record { counter = id; key = key }) },
            result,
          )

      incr_of_above :
          (counts : Counts http lib) (session : Session) (ctx : Ctx)
          → is_empty (key_of http lib by_inflight session ctx).1 ≡ false
          → lt_i64 max (lib.raise (counts id) (key_of http lib by_inflight session ctx).1).1 ≡ true
          → incr http lib by_inflight session counts ctx
            ≡ counted_under counts session ctx
                (err (lib.raise (counts id) (key_of http lib by_inflight session ctx).1).1)
      unfolding incr track
      incr_of_above counts session ctx there above = rw (incr, there, above) refl

      incr_of_below :
          (counts : Counts http lib) (session : Session) (ctx : Ctx)
          → is_empty (key_of http lib by_inflight session ctx).1 ≡ false
          → lt_i64 max (lib.raise (counts id) (key_of http lib by_inflight session ctx).1).1 ≡ false
          → incr http lib by_inflight session counts ctx ≡ counted_under counts session ctx (ok tt)
      unfolding incr track
      incr_of_below counts session ctx there below = rw (incr, there, below) refl

      own_passed :
          (through : Bool) (flights : Flights) (key : Str)
          → passed through flights (some (record { counter = id; key = key }))
            ≡ (key, through) ∷ flights
      own_passed through flights key = ground arith

      other_passed :
          (through : Bool) (flights : Flights) (guard : Option Guard)
          → owns guard ≡ false
          → passed through flights guard ≡ flights
      other_passed through flights none other = refl
      other_passed through flights (some guard) other = rw other refl

      -- After a request was counted, its counter is the one that was raised.
      raised_at :
          (counts : Counts http lib) (session : Session) (ctx : Ctx)
          → owns ctx.guard ≡ false
          → let (ctx', key) = key_of http lib by_inflight session ctx in
            drop_guard http lib ctx'.guard
              (store http lib id (lib.raise (counts id) key).0 counts)
              id
            ≡ (lib.raise (counts id) key).0
      raised_at counts session ctx free =
          let (ctx', key) = key_of http lib by_inflight session ctx in
          let after = store http lib id (lib.raise (counts id) key).0 counts in
          drop_guard-other ctx'.guard after (ap owns (key_of-guard by_inflight session ctx) ∙ free)
          ∙ store-same (lib.raise (counts id) key).0 counts

      comes-IsLimited :
          (counts : Counts http lib) (flights : Flights) (session : Session) (ctx : Ctx)
          → owns ctx.guard ≡ false
          → ((k : Str) → held k flights ≤ laws.count (counts id) k)
          → ((k : Str) → let_through k flights ≤ max)
          → IsLimited (handle_request http lib by_inflight request session counts ctx).1 (
              passed
                (is_ok (handle_request http lib by_inflight request session counts ctx).2.2)
                flights
                (handle_request http lib by_inflight request session counts ctx).2.1.guard)
      unfolding handle_request
      comes-IsLimited counts flights session ctx free counted limits =
          let key = (key_of http lib by_inflight session ctx).1 in
          let at_id = raised_at counts session ctx free in
          elim (Bool-cases (is_empty key)) [
            | inl nothing ↦
                let same = incr_of_empty counts session ctx nothing in
                let guard = (key_of http lib by_inflight session ctx).0.guard in
                let other =
                  other_passed true flights guard
                    (ap owns (key_of-guard by_inflight session ctx) ∙ free) in
                rw (handle_request, same) (rw (same, other) (counted, limits))
            | inr there ↦ elim (Bool-cases (lt_i64 max (lib.raise (counts id) key).1)) [
              | inl above ↦
                  let same = incr_of_above counts session ctx there above in
                  rw (handle_request, same)
                    (rw (same, own_passed false flights key, at_id)
                      (
                        (λ k. raised (counts id) key k flights counted),
                        (λ k. ground (arith, limits k)),
                      ))
              | inr below ↦
                  let same = incr_of_below counts session ctx there below in
                  rw (handle_request, same)
                    (rw (same, own_passed true flights key, at_id)
                      (
                        (λ k. raised (counts id) key k flights counted),
                        (λ k. admitted (counts id) key k flights counted limits below),
                      ))
            ]
          ]

      -- A guard that is dropped is no longer counted.
      ends-held :
          (s : lib.Inflight) (before after : Flights) (key : Str) (through : Bool)
          → ((j : Str) → held j (before ++ ((key, through) ∷ after)) ≤ laws.count s j)
          → (k : Str) → held k (before ++ after) ≤ laws.count (lib.release s key) k
      ends-held s before after key through counts k =
          let c = counts k in
          let r = laws.count-release s key k in
          let e = held-append k before after in
          let f = held-append k before ((key, through) ∷ after) in omega arith

      ends-let_through :
          (before after : Flights) (key : Str) (through : Bool)
          → ((j : Str) → let_through j (before ++ ((key, through) ∷ after)) ≤ max)
          → (k : Str) → let_through k (before ++ after) ≤ max
      ends-let_through before after key through limits k =
          let l = limits k in
          let e = let_through-append k before after in
          let f = let_through-append k before ((key, through) ∷ after) in omega arith

      ends-at :
          (counts : Counts http lib) (key : Str)
          → drop_guard http lib (some (record { counter = id; key = key })) counts id
            ≡ lib.release (counts id) key
      unfolding drop_guard
      ends-at counts key = store-same (lib.release (counts id) key) counts

      Reach-IsLimited :
          (start : Counts http lib) {counts : Counts http lib} {flights : Flights}
          → Reach by_inflight start counts flights
          → IsLimited counts flights
      Reach-IsLimited start begins = ((λ k. omega arith), (λ k. omega arith))
      Reach-IsLimited start (comes {counts} {flights} session ctx free before) =
          let (counted, limits) = Reach-IsLimited start before in
          comes-IsLimited counts flights session ctx free counted limits
      Reach-IsLimited start (ends {counts} before after key through reached) =
          let (counted, limits) = Reach-IsLimited start reached in
          (
            subst (λ s. (k : Str) → held k (before ++ after) ≤ laws.count s k)
                (sym (ends-at counts key)) (ends-held (counts id) before after key through counted),
            ends-let_through before after key through limits,
          )
      Reach-IsLimited start (elsewhere {counts} {counts'} {flights} reached kept) =
          let (counted, limits) = Reach-IsLimited start reached in
          (subst (λ s. (k : Str) → held k flights ≤ laws.count s k) (sym kept) counted, limits)

      -- Of the requests with a key that the plugin let through and that still hold its guard, there
      -- are never more than its maximum, whatever requests come and guards are dropped in which
      -- order. A request gives its guard up when it ends, and before that when another plugin of
      -- requests under way stores its own in the context: the requests that lost the guard in this
      -- way are not in the bound. The plugin limits requests under way, its maximum is less than the
      -- largest isize, its counts are never less than the guards, and no request comes to it twice.
      pub Reach-let_through :
          (start : Counts http lib) {counts : Counts http lib} {flights : Flights}
          → Reach by_inflight start counts flights
          → (k : Str) → let_through k flights ≤ max
      Reach-let_through start reached = (Reach-IsLimited start reached).1
