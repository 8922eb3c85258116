-- ===== src/Sandbox/Access.antt =====
-- The sandboxes that a permission filter lets a principal see.
use ohev.Prelude.{
  Bool, none, some, map, inr, ◌∷◌, ℕ, Option, ◌∙◌, ◌⊎◌, ◌≡◌, refl, true, inl, Bool-cases, List, [],
  if◌then◌else◌,
}
use ohev.Result.{err, not_found, ◌>>=◌, Result, ok, >>=-eq-ok}
use ohev.Sandbox.{
  SandboxCreate, create_sandbox, Provider, Sandbox, get_sandboxes, get_sandbox, list_sandboxes,
  sandbox_id, start_sandbox, use_claimed,
}
use ohev.Table.{or_not_found}
use ohev.Table.Keys.{find_row, HasDistinctIds}
use ohev.Table.Many.{by_id-filter, kept_if}

-- A result's value, or none for an error.
abbrev pub value_of : Result Sandbox → Option Sandbox
value_of (err e) = none
value_of (ok sandbox) = some sandbox

value_of-found :
    (permits : Sandbox → Bool) (o : Option Sandbox)
    → kept_if permits o
      ≡ value_of (or_not_found o >>= λ s. if permits s then ok s else err not_found)
value_of-found permits none = refl
value_of-found permits (some sandbox) = elim (Bool-cases (permits sandbox)) [
  | inl e ↦ rw e refl
  | inr e ↦ rw e refl
]

module _ {S : Type 0} (provider : Provider S) where
  -- For a provider whose sandboxes have distinct ids and whose lookup by id agrees with its list,
  -- `get_sandboxes` returns one entry for each id, in order: what `get_sandbox` returns for the id
  -- under the same filter, or none where that raises.
  get_sandboxes-get_sandbox :
      (permits : Sandbox → Bool) (ids : List ℕ) (store : S)
      → HasDistinctIds sandbox_id (provider.list_hook store)
      → ((i : ℕ)
          → provider.get_hook i store
            ≡ or_not_found (find_row sandbox_id i (provider.list_hook store)))
      → get_sandboxes provider permits ids store
        ≡ map (λ i. value_of (get_sandbox provider permits i store)) ids
  unfolding get_sandboxes get_sandbox list_sandboxes
  get_sandboxes-get_sandbox permits [] store d agrees = refl
  get_sandboxes-get_sandbox permits (i ∷ ids) store d agrees =
      let first =
        by_id-filter sandbox_id permits i (provider.list_hook store) d
        ∙ value_of-found permits (find_row sandbox_id i (provider.list_hook store)) in
      rw (agrees i, first, get_sandboxes-get_sandbox permits ids store d agrees) refl

  use_claimed-IsPermitted :
      (permits : Sandbox → Bool) (model : Sandbox) (claim : Option Sandbox × S)
      → (made : Sandbox) (after : S) → use_claimed provider permits model claim ≡ ok (made, after)
      → (permits made ≡ true)
        ⊎ ((before : S) × (provider.create_hook model none before ≡ ok (made, after)))
  use_claimed-IsPermitted permits model (none, store) made after e = inr (store, e)
  use_claimed-IsPermitted permits model (some claimed, store) made after e =
      elim (Bool-cases (permits claimed)) [ inl p ↦ inl cc | inr p ↦ cc ]

  start_sandbox-IsPermitted :
      (permits : Sandbox → Bool) (payload : SandboxCreate) (snapshot : Option ℕ) (model : Sandbox)
      → (store : S) (made : Sandbox) (after : S)
      → start_sandbox provider permits payload snapshot model store ≡ ok (made, after)
      → (permits made ≡ true)
        ⊎ ((before : S) × (provider.create_hook model snapshot before ≡ ok (made, after)))
  start_sandbox-IsPermitted permits payload (some snapshot) model store made after e =
      inr (store, e)
  start_sandbox-IsPermitted permits payload none model store made after e =
      let (claim, claimed, used) =
        >>=-eq-ok (provider.claim_warm payload.sandbox_template_id payload.sandbox_config_id store)
          _ e in
      use_claimed-IsPermitted permits model claim made after used

  -- `create_sandbox` returns a sandbox that the filter lets through, unless the provider has just
  -- created it for a sandbox model that the filter lets through.
  pub create_sandbox-IsPermitted :
      (permits : Sandbox → Bool) (payload : SandboxCreate) (secret : Option ℕ) (store : S)
      → (made : Sandbox) (after : S)
      → create_sandbox provider permits payload secret store ≡ ok (made, after)
      → let model : Sandbox = record (provider.from_create payload) { secret_key = secret } in
        (permits model ≡ true)
        × ((permits made ≡ true)
            ⊎ ((before : S) × (provider.create_hook model payload.snapshot_id before
                  ≡ ok (made, after))))
  unfolding create_sandbox
  create_sandbox-IsPermitted permits payload secret store made after e =
      elim (Bool-cases (permits (record (provider.from_create payload) { secret_key = secret }))) [
        | inl p ↦ (
          p,
          start_sandbox-IsPermitted permits payload payload.snapshot_id _ store made after
              (rw p at e),
        )
        | inr p ↦ cc
      ]
