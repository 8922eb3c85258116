-- ===== src/Partition/Window.antt =====
-- What a sweep leaves: the window of days ahead has its partitions, and no expired one remains.
use ohev.Partition.{
  Catalog, Naming, is_before, add_partition, add_created, default_holds, has_name, drop_expired,
  drop_table, ensure_partitions, ensure_partition, ensure_default, preallocate,
}
use ohev.Prelude.{
  Option, none, if◌then◌else◌, not, List, ap, Bool, ◌≡◌, refl, inl, inr, ℕ, Bool-cases, ◌&&◌, arith,
  ◌∙◌, sym, filter, ◌∷◌, [], ◌||◌, zero, ◌+◌, ◌-◌, some, ◌==◌, false, ◌≤◌, suc, true, ==_iff, ◌<◌,
  ltb,
}
use ohev.Result.{ok, err, integrity_error}
use ohev.Text.{text_eq, text_eq_iff, Text, text_eq_refl}

-- Every relation whose name is one of the naming's is a partition of the table, as it is where
-- the names are used for nothing else.
abbrev pub IsOwn : Naming → Catalog → Type 0
IsOwn naming catalog =
    (day : ℕ)
    → has_name (naming.partition_name day) catalog.relations
      ≡ has_name (naming.partition_name day) catalog.partitions

-- No day of the window, from `day` on, needs a partition that PostgreSQL refuses: the DEFAULT
-- partition holds no rows of a day that has none yet.
abbrev pub IsClear : Naming → ℕ → ℕ → Catalog → Type 0
IsClear naming n day catalog =
    (d : ℕ)
    → day ≤ d
    → d < day + n
    → has_name (naming.partition_name d) catalog.relations ≡ false
    → default_holds d catalog ≡ false

or_right : (a b : Bool) → (a || b) ≡ false → b ≡ false
or_right a b h = ground arith

text_eq_sym : (s t : Text) → text_eq s t ≡ text_eq t s
text_eq_sym s t = elim (Bool-cases (text_eq s t)) [
  | inl e ↦ rw ((text_eq_iff s t).0 e) refl
  | inr e ↦ elim (Bool-cases (text_eq t s)) [
    | inl k ↦ rw ((text_eq_iff t s).0 k) refl
    | inr k ↦ e ∙ sym k
  ]
]

-- Dates are named apart: equal names are of equal days.
module _ (naming : Naming) where
  open naming use {partition_name, default_name, parse_day, parse_name, parse_default}

  has_name-create :
      (name other : Text) (catalog : Catalog)
      → has_name name (add_partition other catalog).partitions
        ≡ (text_eq other name || has_name name catalog.partitions)
  has_name-create name other catalog = refl

  has_name-filter :
      (name : Text) (p : Text → Bool) (names : List Text)
      → has_name name (filter p names) ≡ (p name && has_name name names)
  has_name-filter name p [] = ground arith
  has_name-filter name p (n ∷ names) = elim (Bool-cases (text_eq n name)) [
    | inl e ↦
        let same : n ≡ name = (text_eq_iff n name).0 e in
        elim (Bool-cases (p n)) [
          | inl t ↦ rw (t, e, sym (ap p same) ∙ t) refl
          | inr t ↦
              rw (t, e, sym (ap p same) ∙ t)
                (has_name-filter name p names ∙ rw (sym (ap p same) ∙ t) refl)
        ]
    | inr e ↦ elim (Bool-cases (p n)) [
      | inl t ↦ rw (t, e) (has_name-filter name p names)
      | inr t ↦ rw (t, e) (has_name-filter name p names)
    ]
  ]

  sweep_dropped :
      (cutoff : ℕ) (name n : Text) (h p : Bool)
      → is_before naming cutoff (parse_day n) ≡ true
      → (not (is_before naming cutoff (parse_day name) && h) && (not (text_eq name n) && p))
        ≡ (not (is_before naming cutoff (parse_day name) && (text_eq n name || h)) && p)
  sweep_dropped cutoff name n h p late = elim (Bool-cases (text_eq n name)) [
    | inl e ↦
        let same : n ≡ name = (text_eq_iff n name).0 e in
        rw (e, ← same, text_eq_refl n, late) (ground arith)
    | inr e ↦ rw (e, text_eq_sym name n ∙ e) (ground arith)
  ]

  sweep_passed :
      (cutoff : ℕ) (name n : Text) (h p : Bool)
      → is_before naming cutoff (parse_day n) ≡ false
      → (not (is_before naming cutoff (parse_day name) && h) && p)
        ≡ (not (is_before naming cutoff (parse_day name) && (text_eq n name || h)) && p)
  sweep_passed cutoff name n h p early = elim (Bool-cases (text_eq n name)) [
    | inl e ↦ let same : n ≡ name = (text_eq_iff n name).0 e in rw (← same, early) (ground arith)
    | inr e ↦ rw e refl
  ]

  -- A partition is kept by the sweep exactly if it is not one of the expired names that were read.
  has_name-drop_expired :
      (cutoff : ℕ) (names : List Text) (catalog : Catalog) (name : Text)
      → has_name name (drop_expired naming cutoff names catalog).1.partitions ≡ (
          not (is_before naming cutoff (parse_day name) && has_name name names)
          && has_name name catalog.partitions)
  unfolding drop_expired
  has_name-drop_expired cutoff [] catalog name = ground arith
  has_name-drop_expired cutoff (n ∷ names) catalog name =
      elim (Bool-cases (is_before naming cutoff (parse_day n))) [
        | inl late ↦ rw late (
            has_name-drop_expired cutoff names (drop_table n catalog) name
            ∙ ap (λ b. not (is_before naming cutoff (parse_day name) && has_name name names) && b)
                (has_name-filter name (λ m. not (text_eq m n)) catalog.partitions)
            ∙ sweep_dropped cutoff name n (has_name name names) (has_name name catalog.partitions)
                late)
        | inr early ↦ rw early (
            has_name-drop_expired cutoff names catalog name
            ∙ sweep_passed cutoff name n (has_name name names) (has_name name catalog.partitions)
                early)
      ]

  -- The catalog after the default partition and the window are there, in either order of names.
  IsOwn-create :
      (name : Text) (catalog : Catalog)
      → IsOwn naming catalog
      → IsOwn naming (add_partition name catalog)
  IsOwn-create name catalog own day = ap (λ b. text_eq name (partition_name day) || b) (own day)

  -- The effect of `ensure_partition`, and of the loop, where PostgreSQL refuses no partition.
  unfoldable ensured : ℕ → Catalog → Option Text × Catalog
  ensured day catalog =
      if has_name (partition_name day) catalog.relations
      then (none, catalog)
      else (some (partition_name day), add_partition (partition_name day) catalog)

  unfoldable preallocated : ℕ → ℕ → Catalog → List Text × Catalog
  unfolding ensured
  preallocated zero day catalog = ([], catalog)
  preallocated (suc n) day catalog =
      let rest = preallocated n (day + 1) (ensured day catalog).1 in
      (add_created naming (ensured day catalog).0 rest.0, rest.1)

  IsOwn-ensure :
      (day : ℕ) (catalog : Catalog) → IsOwn naming catalog → IsOwn naming (ensured day catalog).1
  unfolding ensured
  IsOwn-ensure day catalog own =
      elim (Bool-cases (has_name (partition_name day) catalog.relations)) [
        | inl e ↦ rw e own
        | inr e ↦ rw e (IsOwn-create (partition_name day) catalog own)
      ]

  ensure_there :
      (day : ℕ) (catalog : Catalog)
      → IsOwn naming catalog
      → has_name (partition_name day) (ensured day catalog).1.partitions ≡ true
  unfolding ensured
  ensure_there day catalog own =
      elim (Bool-cases (has_name (partition_name day) catalog.relations)) [
        | inl e ↦ rw e (sym (own day) ∙ e)
        | inr e ↦ rw (e, text_eq_refl (partition_name day)) refl
      ]

  ensure_keeps :
      (day : ℕ) (catalog : Catalog) (name : Text)
      → has_name name catalog.partitions ≡ true
      → has_name name (ensured day catalog).1.partitions ≡ true
  unfolding ensured
  ensure_keeps day catalog name h =
      elim (Bool-cases (has_name (partition_name day) catalog.relations)) [
        | inl e ↦ rw e h
        | inr e ↦ rw (e, h) (ground arith)
      ]

  preallocate_keeps :
      (n day : ℕ) (catalog : Catalog) (name : Text)
      → has_name name catalog.partitions ≡ true
      → has_name name (preallocated n day catalog).1.partitions ≡ true
  unfolding preallocated
  preallocate_keeps zero day catalog name h = h
  preallocate_keeps (suc n) day catalog name h =
      preallocate_keeps n (day + 1) _ name (ensure_keeps day catalog name h)

  preallocate_there :
      (n day : ℕ) (catalog : Catalog) (d : ℕ)
      → IsOwn naming catalog
      → day ≤ d
      → d < day + n
      → has_name (partition_name d) (preallocated n day catalog).1.partitions ≡ true
  unfolding preallocated
  preallocate_there zero day catalog d own h k = absurd (omega arith)
  preallocate_there (suc n) day catalog d own h k = elim (Bool-cases (day == d)) [
    | inl e ↦
        rw (← (==_iff day d).0 e)
          (preallocate_keeps n (day + 1) _ (partition_name day) (ensure_there day catalog own))
    | inr e ↦
        preallocate_there n (day + 1) _ d (IsOwn-ensure day catalog own) (ground arith)
          (omega arith)
  ]

  default_keeps :
      (catalog : Catalog) (name : Text)
      → has_name name catalog.partitions ≡ true
      → has_name name (ensure_default naming catalog).partitions ≡ true
  unfolding ensure_default
  default_keeps catalog name h = elim (Bool-cases (has_name default_name catalog.relations)) [
    | inl e ↦ rw e h
    | inr e ↦ rw (e, h) (ground arith)
  ]

  swept :
      (cutoff : ℕ) (catalog : Catalog) (name : Text)
      → has_name name (drop_expired naming cutoff catalog.partitions catalog).1.partitions
        ≡ (not (is_before naming cutoff (parse_day name)) && has_name name catalog.partitions)
  swept cutoff catalog name =
      has_name-drop_expired cutoff catalog.partitions catalog name ∙ ground arith

  ensure_partition-ensured :
      (day : ℕ) (catalog : Catalog)
      → (has_name (partition_name day) catalog.relations ≡ false
          → default_holds day catalog ≡ false)
      → ensure_partition naming day catalog ≡ ok (ensured day catalog)
  unfolding ensure_partition ensured
  ensure_partition-ensured day catalog clear =
      elim (Bool-cases (has_name (partition_name day) catalog.relations)) [
        | inl e ↦ rw e refl
        | inr e ↦ rw (e, clear e) refl
      ]

  IsClear-ensured :
      (n day : ℕ) (catalog : Catalog)
      → IsClear naming (suc n) day catalog
      → IsClear naming n (day + 1) (ensured day catalog).1
  unfolding ensured
  IsClear-ensured n day catalog clear d h k =
      elim (Bool-cases (has_name (partition_name day) catalog.relations)) [
        | inl e ↦ rw e (clear d (omega arith) (omega arith))
        | inr e ↦ rw e λ absent.
            clear d (omega arith) (omega arith)
              (or_right (text_eq (partition_name day) (partition_name d)) _ absent)
      ]

  preallocate-preallocated :
      (n day : ℕ) (catalog : Catalog)
      → IsClear naming n day catalog
      → preallocate naming n day catalog ≡ ok (preallocated n day catalog)
  unfolding preallocate preallocated
  preallocate-preallocated zero day catalog clear = refl
  preallocate-preallocated (suc n) day catalog clear =
      rw
        (
          ensure_partition-ensured day catalog (clear day (omega arith) (omega arith)),
          preallocate-preallocated n (day + 1) (ensured day catalog).1
              (IsClear-ensured n day catalog clear),
        )
        refl

  ensure_partition-held :
      (day : ℕ) (catalog : Catalog)
      → has_name (partition_name day) catalog.relations ≡ false
      → default_holds day catalog ≡ true
      → ensure_partition naming day catalog ≡ err integrity_error
  unfolding ensure_partition
  ensure_partition-held day catalog absent held = rw (absent, held) refl

  distinct_names :
      (day d : ℕ) → (day == d) ≡ false → text_eq (partition_name day) (partition_name d) ≡ false
  distinct_names day d apart = elim (Bool-cases (text_eq (partition_name day) (partition_name d))) [
    | inl e ↦
        let same : some day ≡ some d =
          sym (parse_name day) ∙ ap parse_day ((text_eq_iff _ _).0 e) ∙ parse_name d in
        absurd (ground (arith, same, apart))
    | inr e ↦ e
  ]

  -- One absent partition that PostgreSQL refuses makes the loop raise.
  preallocate-held :
      (n day : ℕ) (catalog : Catalog) (d : ℕ)
      → day ≤ d
      → d < day + n
      → has_name (partition_name d) catalog.relations ≡ false
      → default_holds d catalog ≡ true
      → preallocate naming n day catalog ≡ err integrity_error
  unfolding preallocate ensure_partition
  preallocate-held zero day catalog d h k absent held = absurd (omega arith)
  preallocate-held (suc n) day catalog d h k absent held = elim (Bool-cases (day == d)) [
    | inl e ↦
        rw
          (ensure_partition-held day catalog (rw (sym ((==_iff day d).0 e)) at absent)
            (rw (sym ((==_iff day d).0 e)) at held))
          refl
    | inr e ↦ elim (Bool-cases (has_name (partition_name day) catalog.relations)) [
      | inl there ↦
          rw
            (there, preallocate-held n (day + 1) catalog d (ground arith) (omega arith) absent held)
            refl
      | inr gone ↦ elim (Bool-cases (default_holds day catalog)) [
        | inl blocked ↦ rw (gone, blocked) refl
        | inr free ↦
            rw
              (
                gone,
                free,
                preallocate-held n (day + 1) (add_partition (partition_name day) catalog) d
                    (ground arith) (omega arith) (rw (distinct_names day d e) absent) held,
              )
              refl
      ]
    ]
  ]

not_and : (b p : Bool) → b ≡ false → p ≡ true → (not b && p) ≡ true
not_and b p e h = ground arith

expired_and : (b p : Bool) → b ≡ true → (not b && p) ≡ false
expired_and b p e = ground arith

not_before : (day today r : ℕ) → today ≤ day → ltb day (today - r) ≡ false
not_before day today r h = ground arith

is_below : (day cutoff : ℕ) → day < cutoff → ltb day cutoff ≡ true
is_below day cutoff h = ground arith

-- What a sweep with these arguments leaves of a catalog: each of the days from today on, as many as
-- are preallocated, has its partition; no partition of a day before the cutoff is left; and every
-- partition that is not of such a day, the DEFAULT one too, is kept.
pub record IsSwept (naming : Naming) (preallocate_days retention_days today : ℕ)
    (catalog after : Catalog) : Type 0 where
  pub window :
      (day : ℕ)
      → today ≤ day
      → day < today + preallocate_days
      → has_name (naming.partition_name day) after.partitions ≡ true
  pub none_expired :
      (name : Text) (day : ℕ)
      → naming.parse_day name ≡ some day
      → day < today - retention_days
      → has_name name after.partitions ≡ false
  pub others_kept :
      (name : Text)
      → is_before naming (today - retention_days) (naming.parse_day name) ≡ false
      → has_name name catalog.partitions ≡ true
      → has_name name after.partitions ≡ true

-- A sweep succeeds, and each of the days from today on, as many as are preallocated, has its
-- partition then; no partition of a day before the cutoff is left; and every partition that is not
-- of such a day, the DEFAULT one too, is kept. Required: relations named like partitions of the
-- table are such, and the DEFAULT partition holds no rows of a day of the window that has no
-- partition yet.
pub ensure_partitions_window :
    (naming : Naming) (preallocate_days retention_days today : ℕ) (catalog : Catalog)
    → IsOwn naming catalog
    → IsClear naming preallocate_days today catalog
    → (created : List Text) × (dropped : List Text) × (after : Catalog) × (ensure_partitions naming
          preallocate_days retention_days today catalog
        ≡ ok (created, dropped, after))
      × IsSwept naming preallocate_days retention_days today catalog after
unfolding ensure_partitions
ensure_partitions_window naming n r today catalog own clear =
    let there = preallocate_there naming n today catalog in
    let before = is_before naming (today - r) in
    let made = preallocated naming n today catalog in
    let ready = ensure_default naming made.1 in
    let done = drop_expired naming (today - r) ready.partitions ready in
    (
      made.0,
      done.0,
      done.1,
      rw (preallocate-preallocated naming n today catalog clear) refl,
      record {
        window = λ day h k.
            swept naming _ _ _
            ∙ not_and _ _ (ap before (naming.parse_name day) ∙ not_before day today r h)
                (default_keeps naming _ _ (there day own h k));
        none_expired =
            λ name day e h. swept naming _ _ _ ∙ expired_and _ _ (ap before e ∙ is_below day _ h);
        others_kept = λ name e h.
            swept naming _ _ _
            ∙ not_and _ _ e
                (default_keeps naming _ _ (preallocate_keeps naming n today catalog name h));
      },
    )

-- While the DEFAULT partition holds rows of a day of the window that has no partition, every sweep
-- raises, whatever else there is to create or to drop.
pub ensure_partitions_blocked :
    (naming : Naming) (preallocate_days retention_days today : ℕ) (catalog : Catalog) (day : ℕ)
    → today ≤ day
    → day < today + preallocate_days
    → has_name (naming.partition_name day) catalog.relations ≡ false
    → default_holds day catalog ≡ true
    → ensure_partitions naming preallocate_days retention_days today catalog ≡ err integrity_error
unfolding ensure_partitions
ensure_partitions_blocked naming n r today catalog day h k absent held =
    rw (preallocate-held naming n today catalog day h k absent held) refl
