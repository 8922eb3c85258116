-- ===== src/Sandbox/Reach.antt =====
-- That `refresh_warm_sandboxes` reaches its targets.
use ohev.Prelude.{
  true, arith, inl, refl, ℕ, inr, ◌≡◌, ◌-◌, ltb, Bool-cases, ◌<◌, ap, suc, ◌≢◌, zero, some, ◌+◌,
  List, ◌∙◌, ◌++◌, false, Option, All, none, ◌∷◌, ◌≤◌, [],
}
use ohev.Sandbox.{
  Loop, Provider, create_while, loop_ended, refresh_counted, parts_of, delete_excess, LoopExit,
  loop_raised, refresh_warm_sandboxes, refresh_targets, summary, delete_while, Refresh, Part,
}
use ohev.Sandbox.Warm.{refresh_counted-Keeps, Keeps, refresh_targets-Keeps}
use ohev.Table.{count}

-- What the counts of a provider say of its actions: an action that returns changes the count of its
-- template by one, and no action changes that of another.
pub record IsPool {S : Type 0} (provider : Provider S) : Type 0 where
  pub create_counts :
      (t c : ℕ) (s : S)
      → (provider.create_warm t s).0 ≡ true
      → provider.count_warm t s ≡ some c
      → provider.count_warm t (provider.create_warm t s).1 ≡ some (c + 1)
  pub delete_counts :
      (t c : ℕ) (s : S)
      → (provider.delete_warm t s).0 ≡ true
      → provider.count_warm t s ≡ some (suc c)
      → provider.count_warm t (provider.delete_warm t s).1 ≡ some c
  pub create_others :
      (t u : ℕ) (s : S)
      → u ≢ t
      → provider.count_warm t (provider.create_warm u s).1 ≡ provider.count_warm t s
  pub delete_others :
      (t u : ℕ) (s : S)
      → u ≢ t
      → provider.count_warm t (provider.delete_warm u s).1 ≡ provider.count_warm t s

-- No action on the template raises.
pub record IsWorking {S : Type 0} (provider : Provider S) (t : ℕ) : Type 0 where
  pub counts : (s : S) → (c : ℕ) × (provider.count_warm t s ≡ some c)
  pub creates : (s : S) → (provider.create_warm t s).0 ≡ true
  pub deletes :
      (s : S) (c : ℕ) → provider.count_warm t s ≡ some (suc c) → (provider.delete_warm t s).0 ≡ true

module _ {S : Type 0} (provider : Provider S) (pool : IsPool provider) where
  open provider use {count_warm, create_warm, delete_warm}

  -- A loop that has not raised, and has the count of its store.
  abbrev IsCounted : ℕ → Loop S → ℕ → Type 0
  IsCounted t loop c =
      (loop.outcome ≡ loop_ended) × (loop.count ≡ c) × (count_warm t loop.store ≡ some c)

  create_while-IsCounted :
      (t n : ℕ)
      → IsWorking provider t
      → (fuel c : ℕ) (loop : Loop S) → n - c < fuel
      → IsCounted t loop c
      → (after : Loop S) × (create_while provider fuel t n loop ≡ some after)
        × IsCounted t after (c + (n - c))
  unfolding create_while
  create_while-IsCounted t n w zero c loop f h = absurd (omega arith)
  create_while-IsCounted t n w (suc fuel) c loop f (h, hc, hs) =
      elim (Bool-cases (ltb loop.count n)) [
        | inl e ↦
            let (after, eq, h_after) =
              create_while-IsCounted t n w fuel (c + 1)
                (record loop {
                  count = loop.count + 1;
                  actions = loop.actions + 1;
                  store = (create_warm t loop.store).1;
                })
                (ground arith)
                (
                  h,
                  ap (λ x. x + 1) hc,
                  pool.create_counts t c loop.store (w.creates loop.store) hs,
                ) in
            let step : c + (n - c) ≡ c + 1 + (n - (c + 1)) = ground arith in
            (after, rw (e, w.creates loop.store) eq, rw step h_after)
        | inr e ↦
            let full : c + (n - c) ≡ c = ground arith in (loop, rw e refl, rw full (h, hc, hs))
      ]

  delete_while-IsCounted :
      (t n : ℕ)
      → IsWorking provider t
      → (fuel c : ℕ) (loop : Loop S) → c - n < fuel
      → IsCounted t loop c
      → (after : Loop S) × (delete_while provider fuel t n loop ≡ some after)
        × IsCounted t after (c - (c - n))
  unfolding delete_while
  delete_while-IsCounted t n w zero c loop f h = absurd (omega arith)
  delete_while-IsCounted t n w (suc fuel) zero loop f (h, hc, hs) =
      let e : ltb n loop.count ≡ false = ground arith in
      let full : zero - (zero - n) ≡ zero = omega arith in (loop, rw e refl, rw full (h, hc, hs))
  delete_while-IsCounted t n w (suc fuel) (suc c) loop f (h, hc, hs) =
      elim (Bool-cases (ltb n loop.count)) [
        | inl e ↦
            let works = w.deletes loop.store c hs in
            let (after, eq, h_after) =
              delete_while-IsCounted t n w fuel c
                (record loop {
                  count = loop.count - 1;
                  actions = loop.actions + 1;
                  store = (delete_warm t loop.store).1;
                })
                (ground arith) (h, ground arith, pool.delete_counts t c loop.store works hs) in
            let step : suc c - (suc c - n) ≡ c - (c - n) = ground arith in
            (after, rw (e, works) eq, rw step h_after)
        | inr e ↦
            let full : suc c - (suc c - n) ≡ suc c = ground arith in
            (loop, rw e refl, rw full (h, hc, hs))
      ]

  delete_excess-count :
      (t n deleted c : ℕ)
      → IsWorking provider t
      → (exit : LoopExit) (loop : Loop S) → exit ≡ loop_ended
      → IsCounted t loop c
      → n ≤ c
      → (after : Refresh S) × (delete_excess provider t n deleted exit loop ≡ some after)
        × (count_warm t after.store ≡ some n)
  delete_excess-count t n deleted c w loop_raised loop x h l = cc
  delete_excess-count t n deleted c w loop_ended loop x (h, hc, hs) l =
      let (after, eq, h_after) =
        delete_while-IsCounted t n w (suc (loop.count - n)) c (record loop { actions = deleted })
          (rw hc (omega arith)) (h, hc, hs) in
      let full : c - (c - n) ≡ n = omega (arith, l) in
      (
        record { created = loop.actions; deleted = after.actions; store = after.store },
        rw eq refl,
        rw full at h_after.2,
      )

  refresh_counted-count :
      (t n : ℕ)
      → IsWorking provider t
      → (count : Option ℕ) (refresh : Refresh S) → count_warm t refresh.store ≡ count
      → (after : Refresh S) × (refresh_counted provider t n count refresh ≡ some after)
        × (count_warm t after.store ≡ some n)
  refresh_counted-count t n w none refresh e = let (c, h) = w.counts refresh.store in cc
  refresh_counted-count t n w (some count) refresh e =
      let (loop, eq, h) =
        create_while-IsCounted t n w (suc (n - count)) count
          (record {
            outcome = loop_ended;
            count = count;
            actions = refresh.created;
            store = refresh.store;
          })
          (omega arith) (refl, refl, e) in
      let (after, eq_after, h_after) =
        delete_excess-count t n refresh.deleted (count + (n - count)) w loop.outcome loop h.0 h
          (omega arith) in
      (after, rw eq eq_after, h_after)

  Keeps-other : (t u c : ℕ) → u ≢ t → Keeps provider (λ s. count_warm t s ≡ some c) u
  Keeps-other t u c d =
      (λ s h. pool.create_others t u s d ∙ h, λ s h. pool.delete_others t u s d ∙ h)

  Keeps-others :
      (t c : ℕ) (targets : List (ℕ × ℕ))
      → All (λ (p : ℕ × ℕ). p.0 ≢ t) targets
      → All (λ (p : ℕ × ℕ). Keeps provider (λ s. count_warm t s ≡ some c) p.0) targets
  Keeps-others t c [] d = tt
  Keeps-others t c ((u, n) ∷ targets) (d, ds) = (Keeps-other t u c d, Keeps-others t c targets ds)

  refresh_targets-count :
      (before : List (ℕ × ℕ)) (t n : ℕ) (rest : List (ℕ × ℕ)) (refresh : Refresh S)
      → IsWorking provider t
      → All (λ (p : ℕ × ℕ). p.0 ≢ t) rest
      → (after : Refresh S) × (refresh_targets provider (before ++ (t, n) ∷ rest) refresh
          ≡ some after)
        × (count_warm t after.store ≡ some n)
  unfolding refresh_targets
  refresh_targets-count [] t n rest refresh w d =
      let (after, eq, h) = refresh_counted-count t n w (count_warm t refresh.store) refresh refl in
      let (last, eq_last, h_last) =
        refresh_targets-Keeps provider (λ s. count_warm t s ≡ some n) rest after
          (Keeps-others t n rest d) h in
      (last, rw eq eq_last, h_last)
  refresh_targets-count ((u, m) ∷ before) t n rest refresh w d =
      let (after, eq, h) =
        refresh_counted-Keeps provider (λ s. Unit) u m (λ s r. tt, λ s r. tt)
          (count_warm u refresh.store) refresh tt in
      let (last, eq_last, h_last) = refresh_targets-count before t n rest after w d in
      (last, rw eq eq_last, h_last)

  -- For a provider whose counts tell what its actions do, `refresh_warm_sandboxes` returns, and
  -- the pool of each template with a target, and no later one, then has the number of the target,
  -- if the actions on that template do not raise; the actions on the other templates may.
  pub refresh_warm_sandboxes-count :
      (before : List (ℕ × ℕ)) (t n : ℕ) (rest : List (ℕ × ℕ)) (store : S)
      → IsWorking provider t
      → All (λ (p : ℕ × ℕ). p.0 ≢ t) rest
      → (parts : Option (List Part)) × (after : S) × (refresh_warm_sandboxes provider
            (before ++ (t, n) ∷ rest)
            store
          ≡ some (parts, after))
        × (count_warm t after ≡ some n)
  unfolding refresh_warm_sandboxes
  refresh_warm_sandboxes-count before t n rest store w d =
      let (last, eq, h) =
        refresh_targets-count before t n rest (record { created = 0; deleted = 0; store = store }) w
          d in
      (summary (parts_of last.created last.deleted), last.store, rw eq refl, h)
