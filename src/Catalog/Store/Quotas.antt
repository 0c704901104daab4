-- ===== src/Catalog/Store/Quotas.antt =====
-- The quotas of src/core/catalog-snapshot-store.ts, and what the operations on the Map do to them.
use kiro_fabric.Prelude.{
  ℕ, ◌+◌, ◌*◌, subst, ◌≤◌, Bool, true, false, ◌≡◌, refl, List, [], ◌∷◌, ◌++◌, none, some, length,
  length-append, arith, ◌==◌, All, Bool-cases, inl, inr, if_cases,
}
use kiro_fabric.Catalog.Store.{
  Snapshot, Policy, lookup, delete, replace, sum_bytes, sum_nodes, union, is_published, fits, prune,
  is_expired,
}
use kiro_fabric.Catalog.Store.Eviction.{Distinct, lookup-delete_absent, Evicts, settled, evicting}

module _ (p : Policy) where
  -- A snapshot is charged its reservation until it is published, and never more.
  pub record Charged (s : Snapshot) : Type 0 where
    pub bytes : s.bytes ≤ p.reservation_bytes
    pub nodes : s.nodes ≤ p.reservation_nodes
    pub full_bytes : is_published s ≡ false → s.bytes ≡ p.reservation_bytes
    pub full_nodes : is_published s ≡ false → s.nodes ≡ p.reservation_nodes
    pub few : length s.dependencies ≤ 256
    pub linked : length s.dependencies * 64 ≤ p.reservation_bytes

  pub record IsWithin (ss : List Snapshot) : Type 0 where
    pub fewer : length ss ≤ p.max_snapshots
    pub bytes : sum_bytes ss ≤ p.max_bytes
    pub nodes : sum_nodes ss ≤ p.max_nodes
    pub distinct : Distinct ss
    pub charged : All Charged ss

  -- A change that no quota can notice.
  pub record Shrinks (ss ts : List Snapshot) : Type 0 where
    pub fewer : length ts ≤ length ss
    pub bytes : sum_bytes ts ≤ sum_bytes ss
    pub nodes : sum_nodes ts ≤ sum_nodes ss
    pub distinct : Distinct ts
    pub charged : All Charged ts

  pub Shrinks-IsWithin : {ss ts : List Snapshot} → IsWithin ss → Shrinks ss ts → IsWithin ts
  Shrinks-IsWithin w s = record {
    fewer = omega (arith, w.fewer, s.fewer);
    bytes = omega (arith, w.bytes, s.bytes);
    nodes = omega (arith, w.nodes, s.nodes);
    distinct = s.distinct;
    charged = s.charged;
  }

  keeps :
      (s : Snapshot) (ss ts : List Snapshot)
      → lookup s.id ts ≡ none
      → Charged s
      → Shrinks ss ts
      → Shrinks (s ∷ ss) (s ∷ ts)
  keeps s ss ts absent k r = record {
    fewer = omega (arith, r.fewer);
    bytes = omega (arith, r.bytes);
    nodes = omega (arith, r.nodes);
    distinct = (absent, r.distinct);
    charged = (k, r.charged);
  }

  skips : (s : Snapshot) (ss ts : List Snapshot) → Shrinks ss ts → Shrinks (s ∷ ss) ts
  skips s ss ts r = record {
    fewer = omega (arith, r.fewer);
    bytes = omega (arith, r.bytes);
    nodes = omega (arith, r.nodes);
    distinct = r.distinct;
    charged = r.charged;
  }

  pub delete-Shrinks :
      (id : ℕ) (ss : List Snapshot) → Distinct ss → All Charged ss → Shrinks ss (delete id ss)
  unfolding delete
  delete-Shrinks id [] d c = record {
    fewer = omega arith;
    bytes = omega arith;
    nodes = omega arith;
    distinct = tt;
    charged = tt;
  }
  delete-Shrinks id (s ∷ ss) d c =
      if_cases (Shrinks (s ∷ ss)) (s.id == id)
        (λ e. record {
          fewer = omega arith;
          bytes = omega arith;
          nodes = omega arith;
          distinct = d.1;
          charged = c.1;
        })
        (λ e.
          keeps s ss (delete id ss) (lookup-delete_absent id s.id ss d.0) c.0
            (delete-Shrinks id ss d.1 c.1))

  pub lookup-prune_absent :
      (f : ℕ → Bool) (now id : ℕ) (ss : List Snapshot)
      → lookup id ss ≡ none
      → lookup id (prune p f now ss) ≡ none
  unfolding prune lookup
  lookup-prune_absent f now id [] h = refl
  lookup-prune_absent f now id (s ∷ ss) h = ground (arith, h, lookup-prune_absent f now id ss)

  pub prune-Shrinks :
      (f : ℕ → Bool) (now : ℕ) (ss : List Snapshot)
      → Distinct ss
      → All Charged ss
      → Shrinks ss (prune p f now ss)
  unfolding prune
  prune-Shrinks f now [] d c = record {
    fewer = omega arith;
    bytes = omega arith;
    nodes = omega arith;
    distinct = tt;
    charged = tt;
  }
  prune-Shrinks f now (s ∷ ss) d c =
      if_cases (Shrinks (s ∷ ss)) (is_expired p f now s)
        (λ e. skips s ss (prune p f now ss) (prune-Shrinks f now ss d.1 c.1))
        (λ e.
          keeps s ss (prune p f now ss) (lookup-prune_absent f now s.id ss d.0) c.0
            (prune-Shrinks f now ss d.1 c.1))

  replace_absent :
      (new : Snapshot) (id : ℕ) (ss : List Snapshot)
      → lookup id ss ≡ none
      → lookup id (replace new ss) ≡ none
  unfolding replace lookup
  replace_absent new id [] h = refl
  replace_absent new id (s ∷ ss) h = ground (arith, h, replace_absent new id ss)

  pub replace-Shrinks :
      (new s : Snapshot) (ss : List Snapshot)
      → Distinct ss
      → All Charged ss
      → lookup new.id ss ≡ some s
      → new.bytes ≤ s.bytes
      → new.nodes ≤ s.nodes
      → Charged new
      → Shrinks ss (replace new ss)
  unfolding replace lookup
  replace-Shrinks new s [] d c held b n k = ground (arith, held)
  replace-Shrinks new s (t ∷ ss) d c held b n k =
      if_cases (Shrinks (t ∷ ss)) (t.id == new.id)
        (λ e. record {
          fewer = omega arith;
          bytes = ground (arith, held, e, b);
          nodes = ground (arith, held, e, n);
          distinct = (ground (arith, d.0, e), d.1);
          charged = (k, c.1);
        })
        (λ e.
          keeps t ss (replace new ss) (replace_absent new t.id ss d.0) c.0
            (replace-Shrinks new s ss d.1 c.1 (ground (arith, held, e)) b n k))

  sum_bytes-append : (ss ts : List Snapshot) → sum_bytes (ss ++ ts) ≡ sum_bytes ss + sum_bytes ts
  sum_bytes-append [] ts = omega arith
  sum_bytes-append (s ∷ ss) ts = omega (arith, sum_bytes-append ss ts)

  sum_nodes-append : (ss ts : List Snapshot) → sum_nodes (ss ++ ts) ≡ sum_nodes ss + sum_nodes ts
  sum_nodes-append [] ts = omega arith
  sum_nodes-append (s ∷ ss) ts = omega (arith, sum_nodes-append ss ts)

  lookup-append_other :
      (id : ℕ) (ss : List Snapshot) (new : Snapshot)
      → lookup id ss ≡ none
      → (new.id == id) ≡ false
      → lookup id (ss ++ new ∷ []) ≡ none
  unfolding lookup
  lookup-append_other id [] new h o = ground (arith, o)
  lookup-append_other id (s ∷ ss) new h o = ground (arith, h, o, lookup-append_other id ss new)

  append-Distinct :
      (ss : List Snapshot) (new : Snapshot)
      → Distinct ss
      → lookup new.id ss ≡ none
      → Distinct (ss ++ new ∷ [])
  unfolding lookup
  append-Distinct [] new d h = (refl, tt)
  append-Distinct (s ∷ ss) new d h = (
    lookup-append_other s.id ss new d.0 (ground (arith, h)),
    append-Distinct ss new d.1 (ground (arith, h)),
  )

  append-Charged :
      (ss : List Snapshot) (new : Snapshot)
      → All Charged ss
      → Charged new
      → All Charged (ss ++ new ∷ [])
  append-Charged [] new c k = (k, tt)
  append-Charged (s ∷ ss) new c k = (c.0, append-Charged ss new c.1 k)

  pub append-IsWithin :
      (new : Snapshot) (ss : List Snapshot)
      → Distinct ss
      → All Charged ss
      → lookup new.id ss ≡ none
      → fits p ss ≡ true
      → Charged new
      → new.bytes ≡ p.reservation_bytes
      → new.nodes ≡ p.reservation_nodes
      → IsWithin (ss ++ new ∷ [])
  append-IsWithin new ss d c absent room k b n = record {
    fewer = ground (arith, room, length-append ss (new ∷ []));
    bytes = ground (arith, room, b, sum_bytes-append ss (new ∷ []));
    nodes = ground (arith, room, n, sum_nodes-append ss (new ∷ []));
    distinct = append-Distinct ss new d absent;
    charged = append-Charged ss new c k;
  }

  pub lookup-Charged :
      (id : ℕ) (ss : List Snapshot) (s : Snapshot)
      → All Charged ss
      → lookup id ss ≡ some s
      → Charged s
  unfolding lookup
  lookup-Charged id [] s c h = absurd (ground (arith, h))
  lookup-Charged id (t ∷ ss) s c h = elim (Bool-cases (t.id == id)) [
    | inl e ↦ subst Charged (ground (arith, h, e)) c.0
    | inr e ↦ lookup-Charged id ss s c.1 (ground (arith, h, e))
  ]

  -- What the eviction loop leaves is part of what it found.
  pub Evicts-Shrinks :
      {ss kept : List Snapshot} → Distinct ss → All Charged ss → Evicts p ss kept → Shrinks ss kept
  Evicts-Shrinks d c settled = record {
    fewer = omega arith;
    bytes = omega arith;
    nodes = omega arith;
    distinct = d;
    charged = c;
  }
  Evicts-Shrinks {ss} d c (evicting s full found shown first rest) =
      let first = delete-Shrinks s.id ss d c in
      let later = Evicts-Shrinks first.distinct first.charged rest in
      record {
        fewer = omega (arith, first.fewer, later.fewer);
        bytes = omega (arith, first.bytes, later.bytes);
        nodes = omega (arith, first.nodes, later.nodes);
        distinct = later.distinct;
        charged = later.charged;
      }

pub lookup-id : (id : ℕ) (ss : List Snapshot) (s : Snapshot) → lookup id ss ≡ some s → s.id ≡ id
unfolding lookup
lookup-id id [] s h = absurd (ground (arith, h))
lookup-id id (t ∷ ss) s h = ground (arith, h, lookup-id id ss s)

pub length-union : (known ds : List ℕ) → length (union known ds) ≤ length known + length ds
unfolding union
length-union known [] = omega arith
length-union known (d ∷ ds) =
    ground (
      arith,
      length-union known ds,
      length-union (known ++ d ∷ []) ds,
      length-append known (d ∷ []),
    )

pub lookup-append_held :
    (id : ℕ) (ss ts : List Snapshot) (s : Snapshot)
    → lookup id ss ≡ some s
    → lookup id (ss ++ ts) ≡ some s
unfolding lookup
lookup-append_held id [] ts s h = absurd (ground (arith, h))
lookup-append_held id (t ∷ ss) ts s h = ground (arith, h, lookup-append_held id ss ts s)

pub lookup-prune_held :
    (p : Policy) (f : ℕ → Bool) (now id : ℕ) (ss : List Snapshot) (s : Snapshot)
    → Distinct ss
    → lookup id (prune p f now ss) ≡ some s
    → lookup id ss ≡ some s
unfolding lookup prune
lookup-prune_held p f now id [] s d h = h
lookup-prune_held p f now id (t ∷ ss) s d h = elim (Bool-cases (is_expired p f now t)) [
  | inr e ↦ ground (arith, h, e, lookup-prune_held p f now id ss s d.1)
  | inl e ↦ elim (Bool-cases (t.id == id)) [
    | inr o ↦ ground (arith, h, e, o, lookup-prune_held p f now id ss s d.1)
    | inl o ↦ absurd (ground (arith, h, e, o, d.0, lookup-prune_absent p f now t.id ss d.0))
  ]
]

pub lookup-Evicts_absent :
    {p : Policy} {ss kept : List Snapshot} (id : ℕ)
    → lookup id ss ≡ none
    → Evicts p ss kept
    → lookup id kept ≡ none
lookup-Evicts_absent id h settled = h
lookup-Evicts_absent {ss = ss} id h (evicting s full found shown first rest) =
    lookup-Evicts_absent id (lookup-delete_absent s.id id ss h) rest
