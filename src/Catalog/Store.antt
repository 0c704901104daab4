-- ===== src/Catalog/Store.antt =====
-- The operations of src/core/catalog-snapshot-store.ts on its snapshots.
-- Ids, digests and dependencies are numbers that are only compared; a random id is an argument, and
-- so are the readings of the clock and, as `is_current`, what the dependencies answer at a call.
pub mod Quotas
pub mod Eviction
pub mod Reserving
use kiro_fabric.Prelude.{
  ℕ, zero, suc, ◌+◌, ◌-◌, ◌*◌, min, Bool, true, false, ◌&&◌, ◌||◌, not, ltb, leb, ◌==◌,
  if◌then◌else◌, List, [], ◌∷◌, ◌++◌, Option, none, some, length, get_elem?, Text, Outcome, ok, err,
  ◌>>=◌, ◌>>◌, throw_if,
}
use kiro_fabric.Catalog.Graph.{Node, Members, object, cons, nil, Walked, walk, key_count, occurs_in}

pub data Method : Type 0 where
  tools_list_page tools_search_page tools_describe_page mcp_tools_page mcp_describe_page : Method

pub data CatalogError : Type 0 where
  quota page_budget unavailable : CatalogError

pub record Policy : Type 0 where
  pub max_snapshots : ℕ
  pub max_bytes : ℕ
  pub max_nodes : ℕ
  pub reservation_bytes : ℕ
  pub reservation_nodes : ℕ
  pub soft_expiry_ms : ℕ
  pub idle_ms : ℕ
  pub absolute_ms : ℕ

pub record Entry : Type 0 where
  pub text : Text
  pub digest : ℕ

-- `publish` sets a snapshot's method and its entries in one assignment.
pub record Published : Type 0 where
  pub method : Method
  pub entries : List Entry

pub record Snapshot : Type 0 where
  pub dependencies : List ℕ
  pub id : ℕ
  pub published : Option Published
  pub bytes : ℕ
  pub nodes : ℕ
  pub created : ℕ
  pub touched : ℕ
  pub expires : ℕ

-- `snapshots` is the Map in insertion order, and `key` says which random key is in use.
pub record Store : Type 0 where
  pub key : ℕ
  pub is_closed : Bool
  pub snapshots : List Snapshot

abbrev pub default_policy : Policy
default_policy = record {
  max_snapshots = 32;
  max_bytes = 32 * 1024 * 1024;
  max_nodes = 600_000;
  reservation_bytes = 8 * 1024 * 1024;
  reservation_nodes = 100_000;
  soft_expiry_ms = 600_000;
  idle_ms = 1_800_000;
  absolute_ms = 7_200_000;
}

-- The constructor, with its policy filled in: no field is 0, and nothing is held.
unfoldable pub make_store : Policy → ℕ → Option Store
make_store p key =
    if ltb 0 p.max_snapshots
      && ltb 0 p.max_bytes
      && ltb 0 p.max_nodes
      && ltb 0 p.reservation_bytes
      && ltb 0 p.reservation_nodes
      && ltb 0 p.soft_expiry_ms
      && ltb 0 p.idle_ms
      && ltb 0 p.absolute_ms
    then some (record { key = key; is_closed = false; snapshots = [] })
    else none

-- What `reserve` returns: the snapshot's id and the closure's `active`.
pub record Reservation : Type 0 where
  pub id : ℕ
  pub is_active : Bool

unfoldable pub are_current : (ℕ → Bool) → List ℕ → Bool
are_current is_current [] = true
are_current is_current (d ∷ ds) = is_current d && are_current is_current ds

unfoldable pub lookup : ℕ → List Snapshot → Option Snapshot
lookup id [] = none
lookup id (s ∷ rest) = if s.id == id then some s else lookup id rest

unfoldable pub delete : ℕ → List Snapshot → List Snapshot
delete id [] = []
delete id (s ∷ rest) = if s.id == id then rest else s ∷ delete id rest

-- An assignment to the fields of a snapshot that the Map holds.
unfoldable pub replace : Snapshot → List Snapshot → List Snapshot
replace new [] = []
replace new (s ∷ rest) = if s.id == new.id then new ∷ rest else s ∷ replace new rest

abbrev pub sum_bytes : List Snapshot → ℕ
sum_bytes [] = 0
sum_bytes (s ∷ rest) = s.bytes + sum_bytes rest

abbrev pub sum_nodes : List Snapshot → ℕ
sum_nodes [] = 0
sum_nodes (s ∷ rest) = s.nodes + sum_nodes rest

abbrev pub is_published : Snapshot → Bool
is_published s = elim s.published [ none ↦ false | some _ ↦ true ]

-- The first of the snapshots that were touched longest ago, among those that are published.
unfoldable pub oldest : List Snapshot → Option Snapshot
oldest [] = none
oldest (s ∷ rest) =
    let later = oldest rest in
    if is_published s
    then elim later [ none ↦ some s | some t ↦ if ltb t.touched s.touched then some t else some s ]
    else later

-- The Set of a list joined to another.
unfoldable pub union : List ℕ → List ℕ → List ℕ
union known [] = known
union known (d ∷ ds) = if occurs_in d known then union known ds else union (known ++ d ∷ []) ds

module _ (p : Policy) where
  unfoldable pub is_expired : (ℕ → Bool) → ℕ → Snapshot → Bool
  is_expired is_current now s =
      not (are_current is_current s.dependencies)
      || leb p.absolute_ms (now - s.created)
      || leb p.idle_ms (now - s.touched)

  unfoldable pub prune : (ℕ → Bool) → ℕ → List Snapshot → List Snapshot
  prune is_current now [] = []
  prune is_current now (s ∷ rest) =
      let kept = prune is_current now rest in if is_expired is_current now s then kept else s ∷ kept

  abbrev pub fits : List Snapshot → Bool
  fits ss =
      ltb (length ss) p.max_snapshots
      && leb (p.reservation_bytes + sum_bytes ss) p.max_bytes
      && leb (p.reservation_nodes + sum_nodes ss) p.max_nodes

  -- The `while (!fits())` loop, with the rounds left: whether a reservation fits in the end, and what
  -- is left. `none`: no rounds are left.
  unfoldable pub evict : ℕ → List Snapshot → Option (Bool × List Snapshot)
  evict zero ss = none
  evict (suc rounds) ss = elim (oldest ss) [
    | none ↦ some (fits ss, ss)
    | some s ↦ let rest = evict rounds (delete s.id ss) in if fits ss then some (true, ss) else rest
  ]

  unfoldable pub reserve_snapshot : List ℕ → ℕ → ℕ → Snapshot
  reserve_snapshot dependencies id now = record {
    dependencies = union [] dependencies;
    id = id;
    published = none;
    bytes = p.reservation_bytes;
    nodes = p.reservation_nodes;
    created = now;
    touched = now;
    expires = now + p.soft_expiry_ms;
  }

  abbrev pub is_too_large : ℕ → Bool
  is_too_large count = ltb p.reservation_bytes (count * 64) || ltb p.reservation_nodes count

  -- The end of `reserve`, behind its loop.
  abbrev pub grant :
      Store
      → Snapshot
      → Option (Bool × List Snapshot)
      → Option (Store × Outcome CatalogError Reservation)
  grant st new none = none
  grant st new (some (false, kept)) = some (record st { snapshots = kept }, err quota)
  grant st new (some (true, kept)) =
      some
        (record st { snapshots = kept ++ new ∷ [] }, ok (record { id = new.id; is_active = true }))

  -- `none` is a call that does not return. `now` is read by the prune, `later` behind the loop.
  unfoldable pub reserve :
      (ℕ → Bool)
      → Store
      → List ℕ
      → (id now later : ℕ) → Option (Store × Outcome CatalogError Reservation)
  reserve is_current st dependencies id now later =
      let pruned = prune is_current now st.snapshots in
      let swept : Store = record st { snapshots = pruned } in
      if ltb 256 (length dependencies)
      then some (st, err quota)
      else if not (are_current is_current dependencies)
      then some (st, err unavailable)
      else if st.is_closed
      then some (st, err unavailable)
      else if is_too_large (length dependencies)
      then some (swept, err quota)
      else if ltb p.max_bytes p.reservation_bytes || ltb p.max_nodes p.reservation_nodes
      then some (swept, err quota)
      else grant st (reserve_snapshot dependencies id later) (evict (suc (length pruned)) pruned)

  -- `depend` of a reservation: `is_before` is what the dependencies answer at the first prune,
  -- `is_after` at the second.
  unfoldable pub depend :
      (is_before is_after : ℕ → Bool)
      → Store
      → Reservation
      → List ℕ
      → (now later : ℕ) → (Store × Reservation) × Outcome CatalogError (Unit {0})
  depend is_before is_after st r dependencies now later =
      let pruned = prune is_before now st.snapshots in
      let swept : Store = record st { snapshots = pruned } in
      let dropped : Store = record st { snapshots = delete r.id pruned } in
      let ended : Reservation = record r { is_active = false } in
      elim (lookup r.id pruned) [
        | none ↦ ((swept, r), err unavailable)
        | some s ↦
            let combined = union s.dependencies dependencies in
            let extended : Snapshot = record s { dependencies = combined } in
            let left = prune is_after later (replace extended pruned) in
            if not r.is_active
            then ((swept, r), err unavailable)
            else if ltb 256 (length dependencies)
            then ((dropped, ended), err quota)
            else if ltb 256 (length combined) || is_too_large (length combined)
            then ((dropped, ended), err quota)
            else (
              (record st { snapshots = left }, r),
              elim (lookup r.id left) [ none ↦ err unavailable | some _ ↦ ok tt ],
            )
      ]

  unfoldable pub release : Store → Reservation → Store × Reservation
  release st r =
      if r.is_active
      then (record st { snapshots = delete r.id st.snapshots }, record r { is_active = false })
      else (st, r)
