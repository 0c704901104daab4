-- ===== src/Catalog/Tests.antt =====
-- A catalog of two descriptors of src/core/catalog-snapshot-store.ts, from its reservation to its
-- pages.
use kiro_fabric.Prelude.{
  ℕ, ◌+◌, ◌*◌, Bool, true, false, ◌≡◌, refl, [], ◌∷◌, none, some, length, replicate, arith, err,
}
use kiro_fabric.Catalog.Graph.{Node, string, scalar, object, nil, cons, walk, walk_members}
use kiro_fabric.Catalog.Graph.Measure.{
  Accepted, node_count, height, string_bytes, is_data_only, visit, walk-Accepted,
}
use kiro_fabric.Catalog.Store.{
  default_policy, make_store, fits, mcp_tools_page, mcp_describe_page, unavailable, Policy, Entry,
  Snapshot, Store, Reservation, are_current, lookup, delete, replace, oldest, union, is_expired,
  prune, evict, reserve_snapshot, reserve, depend, release,
}
use kiro_fabric.Catalog.Store.Quotas.{IsWithin, Charged}
use kiro_fabric.Catalog.Store.Reserving.{Returns, reserve-Returns}
use kiro_fabric.Catalog.Cursors.{
  Body, Cursor, cursor, is_describe, describe_of, same_method, is_position, token, touch, accept,
  authenticate, invalidate,
}
use kiro_fabric.Catalog.Cursors.Laws.{Accepts, authenticate-Accepts}
use kiro_fabric.Catalog.Publish.{Descriptor, Inventory, make_entries, build, publish}
use kiro_fabric.Catalog.Publish.Charges.{Returned, build-Returned}
use kiro_fabric.Catalog.Pages.{
  inline, CatalogPage, DescriptorPage, Json, budgets, before_pair, list_page, defer, choose_item,
  fill, make_list_page, chunk, chunk_end, make_chunk, catalog_page, describe_page,
}
use kiro_fabric.Catalog.History.{Call, step, starts, steps, Reach-IsWithin, IsPending}

program : Unit {0}
unfolding walk walk_members are_current lookup delete replace oldest union is_expired prune evict
    reserve_snapshot reserve depend release is_describe describe_of same_method is_position token
    touch accept authenticate invalidate make_entries build publish budgets before_pair list_page
    defer choose_item fill make_list_page chunk chunk_end make_chunk catalog_page describe_page step
program = tt

abbrev policy : Policy
policy = record {
  max_snapshots = 2;
  max_bytes = 20_000;
  max_nodes = 100;
  reservation_bytes = 9_000;
  reservation_nodes = 40;
  soft_expiry_ms = 10;
  idle_ms = 50;
  absolute_ms = 200;
}

abbrev always : ℕ → Bool
always d = true

abbrev signature : ℕ → Body → ℕ
signature key b = key + b.id + b.position

abbrev empty : Store
empty = record { key = 5; is_closed = false; snapshots = [] }

abbrev descriptor : ℕ → Descriptor
descriptor n = record {
  json = n ∷ 1 ∷ 2 ∷ [];
  is_json = true;
  supplied_digest = none;
  computed_digest = n;
}

abbrev tools : Node
tools =
    object 1 true true
      (cons 1 true (object 2 false true (cons 4 true (string 3) nil)) (cons 1 true scalar nil))

abbrev inventory : Inventory
inventory = record { graph = tools; descriptors = descriptor 7 ∷ descriptor 8 ∷ [] }

abbrev reserved : Store
reserved = record empty {
  snapshots =
      record {
        dependencies = 3 ∷ [];
        id = 70;
        published = none;
        bytes = 9_000;
        nodes = 40;
        created = 100;
        touched = 100;
        expires = 110;
      }
      ∷ [];
}

abbrev entry : ℕ → Entry
entry n = record { text = n ∷ 1 ∷ 2 ∷ []; digest = n }

-- A snapshot of two descriptors.
abbrev listed : (id touched : ℕ) → Snapshot
listed id touched = record {
  dependencies = 3 ∷ [];
  id = id;
  published = some (record { method = mcp_tools_page; entries = entry 7 ∷ entry 8 ∷ [] });
  bytes = 1_266;
  nodes = 5;
  created = 100;
  touched = touched;
  expires = 110;
}

listed-Charged : (id touched : ℕ) → Charged policy (listed id touched)
listed-Charged id touched = record {
  bytes = omega arith;
  nodes = omega arith;
  full_bytes = λ h. absurd (ground (arith, h));
  full_nodes = λ h. absurd (ground (arith, h));
  few = omega arith;
  linked = omega arith;
}

abbrev published_store : Store
published_store = record empty { snapshots = listed 70 105 ∷ [] }

abbrev handle : Reservation
handle = record { id = 70; is_active = true }

making : (make_store policy 5 ≡ some empty) × (make_store (record policy { idle_ms = 0 }) 5 ≡ none)
unfolding make_store
making = (refl, refl)

-- A store of the default policy has room for a reservation.
making_default :
    (st : Store) × (make_store default_policy 5 ≡ some st)
    × (fits default_policy st.snapshots ≡ true)
unfolding make_store
making_default = (empty, refl, refl)

reserving :
    step policy length signature empty (Call.reserves always (3 ∷ []) 70 99 100) ≡ some reserved
unfolding program
reserving = refl

publishing :
    step policy length signature reserved
      (Call.publishes always handle mcp_tools_page inventory none 103 105)
    ≡ some published_store
unfolding program
publishing = refl

empty-IsWithin : IsWithin policy empty.snapshots
empty-IsWithin = record {
  fewer = omega arith;
  bytes = omega arith;
  nodes = omega arith;
  distinct = tt;
  charged = tt;
}

-- Every page is as long as it has items, and every piece as long as its text.
abbrev plain_json : Json
plain_json = record {
  utf8_bytes = length;
  catalog_text = λ page. some (replicate (400 * page.returned) 9);
  descriptor_text = λ piece. some piece.text;
}

abbrev list_cursor : ℕ → Cursor
list_cursor position =
    cursor
      (record {
        id = 70;
        method = mcp_tools_page;
        descriptor = none;
        position = position;
        expires = 110;
      })
      (75 + position)

abbrev text_cursor : Cursor
text_cursor =
    cursor
      (record {
        id = 70;
        method = mcp_describe_page;
        descriptor = some 1;
        position = 1;
        expires = 110;
      })
      76

abbrev first_page : CatalogPage
first_page = record {
  items = inline (7 ∷ 1 ∷ 2 ∷ []) ∷ [];
  total = 2;
  returned = 1;
  is_complete = false;
  next_cursor = some (list_cursor 1);
}

abbrev last_piece : DescriptorPage
last_piece = record {
  text = 1 ∷ 2 ∷ [];
  total_chars = 3;
  digest = 8;
  is_complete = true;
  next_cursor = none;
}

-- A cursor with another signature is refused.
forged :
    (authenticate signature policy always published_store
      (cursor
        (record {
          id = 70;
          method = mcp_tools_page;
          descriptor = none;
          position = 1;
          expires = 110;
        })
        4)
      106
      106).1
    ≡ err unavailable
unfolding program
forged = refl

walk-Accepted_example :
    Accepted 40 9_000
      (height tools)
      (node_count tools)
      (string_bytes tools)
      0
      (is_data_only tools)
      (visit tools [])
      (record { nodes = 1; raw = 64; seen = [] })
      (record { nodes = 5; raw = 82; seen = 2 ∷ 1 ∷ [] })
unfolding program
walk-Accepted_example =
    walk-Accepted 40 9_000 tools 0 (record { nodes = 1; raw = 64; seen = [] })
      (record { nodes = 5; raw = 82; seen = 2 ∷ 1 ∷ [] }) (omega arith) (omega arith) (omega arith)
      refl refl

-- As many snapshots as there may be, the second one touched before the first.
abbrev crowded : Store
crowded = record empty { snapshots = listed 71 107 ∷ listed 70 105 ∷ [] }

crowded-IsWithin : IsWithin policy crowded.snapshots
unfolding lookup
crowded-IsWithin = record {
  fewer = omega arith;
  bytes = omega arith;
  nodes = omega arith;
  distinct = (refl, (refl, tt));
  charged = (listed-Charged 71 107, (listed-Charged 70 105, tt));
}

-- The snapshot that was touched first goes.
reserving_evicts :
    step policy length signature crowded (Call.reserves always (3 ∷ []) 72 109 110)
    ≡ some
        (record empty { snapshots = listed 71 107 ∷ reserve_snapshot policy (3 ∷ []) 72 110 ∷ [] })
unfolding program
reserving_evicts = refl

reserve-Returns_example :
    Returns policy crowded
      (prune policy always 109 crowded.snapshots)
      (reserve_snapshot policy (3 ∷ []) 72 110)
      (reserve policy always crowded (3 ∷ []) 72 109 110)
unfolding program
reserve-Returns_example =
    reserve-Returns policy always crowded crowded-IsWithin (3 ∷ []) 72 109 110 refl

handle-IsPending : IsPending policy reserved handle
unfolding program
handle-IsPending = record { pending = λ s active h. ground (arith, h) }

Reach-IsWithin_example : IsWithin policy published_store.snapshots
unfolding program
Reach-IsWithin_example =
    Reach-IsWithin policy length signature {st = empty} {t = published_store} empty-IsWithin (
      steps {t = reserved} (Call.publishes always handle mcp_tools_page inventory none 103 105)
        (steps {t = empty} (Call.reserves always (3 ∷ []) 70 99 100) starts refl refl)
        handle-IsPending refl)

authenticate-Accepts_example :
    Accepts signature policy always 106 published_store
      (list_cursor 1)
      (authenticate signature policy always published_store (list_cursor 1) 106 107)
authenticate-Accepts_example =
    authenticate-Accepts signature policy always published_store (list_cursor 1) 106 107

build-Returned_example :
    Returned length policy 1 inventory none (build length policy 1 mcp_tools_page inventory none)
build-Returned_example = build-Returned length policy 1 mcp_tools_page inventory none (omega arith)
