-- ===== src/Sandbox/Warm.antt =====
-- The loops of `refresh_warm_sandboxes`: that they end, and what they reach.
use ohev.Prelude.{
  ltb, refl, inl, ◌≡◌, inr, ℕ, some, ◌-◌, zero, Bool-cases, arith, suc, ◌<◌, ◌+◌, none, Option, ◌∷◌,
  List, All, [],
}
use ohev.Sandbox.{
  create_while, Provider, Loop, refresh_targets, refresh_counted, LoopExit, loop_ended, Refresh,
  delete_while, delete_excess, loop_raised, Part, parts_of, refresh_warm_sandboxes, summary,
}
use ohev.Table.{count}

module _ {S : Type 0} (provider : Provider S) where
  open provider use {count_warm, create_warm, delete_warm}

  -- A predicate that the actions on a template keep.
  abbrev pub Keeps : (S → Type 0) → ℕ → Type 0
  Keeps R t = ((s : S) → R s → R (create_warm t s).1) × ((s : S) → R s → R (delete_warm t s).1)

  create_while-Keeps :
      (R : S → Type 0) (t n : ℕ)
      → Keeps R t
      → (fuel : ℕ) (loop : Loop S) → n - loop.count < fuel
      → R loop.store
      → (after : Loop S) × (create_while provider fuel t n loop ≡ some after) × R after.store
  unfolding create_while
  create_while-Keeps R t n k zero loop f r = absurd (omega arith)
  create_while-Keeps R t n k (suc fuel) loop f r = elim (Bool-cases (ltb loop.count n)) [
    | inl e ↦ elim (Bool-cases (create_warm t loop.store).0) [
      | inl w ↦
          let (after, eq, h) =
            create_while-Keeps R t n k fuel
              (record loop {
                count = loop.count + 1;
                actions = loop.actions + 1;
                store = (create_warm t loop.store).1;
              })
              (ground arith) (k.0 loop.store r) in
          (after, rw (e, w) eq, h)
      | inr w ↦ (
        record loop { outcome = loop_raised; store = (create_warm t loop.store).1 },
        rw (e, w) refl,
        k.0 loop.store r,
      )
    ]
    | inr e ↦ (loop, rw e refl, r)
  ]

  delete_while-Keeps :
      (R : S → Type 0) (t n : ℕ)
      → Keeps R t
      → (fuel : ℕ) (loop : Loop S) → loop.count - n < fuel
      → R loop.store
      → (after : Loop S) × (delete_while provider fuel t n loop ≡ some after) × R after.store
  unfolding delete_while
  delete_while-Keeps R t n k zero loop f r = absurd (omega arith)
  delete_while-Keeps R t n k (suc fuel) loop f r = elim (Bool-cases (ltb n loop.count)) [
    | inl e ↦ elim (Bool-cases (delete_warm t loop.store).0) [
      | inl w ↦
          let (after, eq, h) =
            delete_while-Keeps R t n k fuel
              (record loop {
                count = loop.count - 1;
                actions = loop.actions + 1;
                store = (delete_warm t loop.store).1;
              })
              (ground arith) (k.1 loop.store r) in
          (after, rw (e, w) eq, h)
      | inr w ↦ (
        record loop { outcome = loop_raised; store = (delete_warm t loop.store).1 },
        rw (e, w) refl,
        k.1 loop.store r,
      )
    ]
    | inr e ↦ (loop, rw e refl, r)
  ]

  delete_excess-Keeps :
      (R : S → Type 0) (t n deleted : ℕ)
      → Keeps R t
      → (exit : LoopExit) (loop : Loop S) → R loop.store
      → (after : Refresh S) × (delete_excess provider t n deleted exit loop ≡ some after)
        × R after.store
  delete_excess-Keeps R t n deleted k loop_raised loop r = (_, refl, r)
  delete_excess-Keeps R t n deleted k loop_ended loop r =
      let (after, eq, h) =
        delete_while-Keeps R t n k (suc (loop.count - n)) (record loop { actions = deleted })
          (omega arith) r in
      (
        record { created = loop.actions; deleted = after.actions; store = after.store },
        rw eq refl,
        h,
      )

  pub refresh_counted-Keeps :
      (R : S → Type 0) (t n : ℕ)
      → Keeps R t
      → (count : Option ℕ) (refresh : Refresh S) → R refresh.store
      → (after : Refresh S) × (refresh_counted provider t n count refresh ≡ some after)
        × R after.store
  refresh_counted-Keeps R t n k none refresh r = (refresh, refl, r)
  refresh_counted-Keeps R t n k (some count) refresh r =
      let (loop, eq, h) =
        create_while-Keeps R t n k (suc (n - count))
          (record {
            outcome = loop_ended;
            count = count;
            actions = refresh.created;
            store = refresh.store;
          })
          (omega arith) r in
      let (after, eq_after, h_after) =
        delete_excess-Keeps R t n refresh.deleted k loop.outcome loop h in
      (after, rw eq eq_after, h_after)

  pub refresh_targets-Keeps :
      (R : S → Type 0) (targets : List (ℕ × ℕ)) (refresh : Refresh S)
      → All (λ (p : ℕ × ℕ). Keeps R p.0) targets
      → R refresh.store
      → (after : Refresh S) × (refresh_targets provider targets refresh ≡ some after)
        × R after.store
  unfolding refresh_targets
  refresh_targets-Keeps R [] refresh k r = (refresh, refl, r)
  refresh_targets-Keeps R ((t, n) ∷ targets) refresh (k, ks) r =
      let (after, eq, h) = refresh_counted-Keeps R t n k (count_warm t refresh.store) refresh r in
      let (last, eq_last, h_last) = refresh_targets-Keeps R targets after ks h in
      (last, rw eq eq_last, h_last)

  anything : (targets : List (ℕ × ℕ)) → All (λ (p : ℕ × ℕ). Keeps (λ s. Unit) p.0) targets
  anything [] = tt
  anything (p ∷ targets) = ((λ s r. tt, λ s r. tt), anything targets)

  -- `refresh_warm_sandboxes` ends, whatever the provider does: the fuel of its loops is enough.
  refresh_warm_sandboxes-returns :
      (targets : List (ℕ × ℕ)) (store : S)
      → (parts : Option (List Part)) × (after : S) × (refresh_warm_sandboxes provider targets store
          ≡ some (parts, after))
  unfolding refresh_warm_sandboxes
  refresh_warm_sandboxes-returns targets store =
      let (last, eq, h) =
        refresh_targets-Keeps (λ s. Unit) targets
          (record { created = 0; deleted = 0; store = store }) (anything targets) tt in
      (summary (parts_of last.created last.deleted), last.store, rw eq refl)
