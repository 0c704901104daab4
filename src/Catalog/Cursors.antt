-- ===== src/Catalog/Cursors.antt =====
-- The cursors of src/core/catalog-snapshot-store.ts: `token` issues them, `authenticate` accepts
-- them. The keyed digest, Node's createHmac, is the parameter `mac` of the key and the body; the
-- body's text, JSON in base64url, is a record, and any other text is `malformed`.
pub mod Laws
use kiro_fabric.Prelude.{
  ℕ, ◌+◌, Bool, true, false, ◌&&◌, ◌||◌, not, ltb, leb, ◌==◌, if◌then◌else◌, Option, none, some,
  length, get_elem?, Outcome, ok, err, List, [],
}
use kiro_fabric.Catalog.Store.{
  Method, tools_list_page, tools_search_page, tools_describe_page, mcp_tools_page,
  mcp_describe_page, CatalogError, unavailable, Policy, Entry, Published, Snapshot, Store, lookup,
  replace, prune,
}

-- `descriptor` is `none` for the -1 of a cursor into the list.
pub record Body : Type 0 where
  pub id : ℕ
  pub method : Method
  pub descriptor : Option ℕ
  pub position : ℕ
  pub expires : ℕ

pub data Cursor : Type 0 where
  malformed : Cursor
  cursor : Body → ℕ → Cursor

unfoldable pub is_describe : Method → Bool
is_describe tools_describe_page = true
is_describe mcp_describe_page = true
is_describe _ = false

unfoldable pub describe_of : Method → Method
describe_of mcp_tools_page = mcp_describe_page
describe_of mcp_describe_page = mcp_describe_page
describe_of _ = tools_describe_page

unfoldable pub same_method : Method → Method → Bool
same_method tools_list_page tools_list_page = true
same_method tools_search_page tools_search_page = true
same_method tools_describe_page tools_describe_page = true
same_method mcp_tools_page mcp_tools_page = true
same_method mcp_describe_page mcp_describe_page = true
same_method _ _ = false

-- What an accepted cursor points to.
pub record Access : Type 0 where
  pub id : ℕ
  pub expires : ℕ
  pub entries : List Entry
  pub method : Method
  pub descriptor : Option ℕ
  pub position : ℕ

-- The test of the position: behind an entry of the list at most, or within a descriptor's text.
unfoldable pub is_position : Published → Body → Bool
is_position q b = elim b.descriptor [
  | none ↦
      same_method b.method q.method
      && not (is_describe b.method)
      && leb b.position (length q.entries)
  | some d ↦
      same_method b.method (describe_of q.method)
      && elim (get_elem? q.entries d) [ none ↦ false | some e ↦ leb b.position (length e.text) ]
]

module _ (mac : ℕ → Body → ℕ) (p : Policy) where
  unfoldable pub token : ℕ → ℕ → ℕ → Method → Option ℕ → ℕ → Cursor
  token key id expires method descriptor position =
      let b : Body = record {
        id = id;
        method = method;
        descriptor = descriptor;
        position = position;
        expires = expires;
      } in
      cursor b (mac key b)

  -- The snapshot in use: touched, and its soft expiry renewed when it has passed.
  unfoldable pub touch : Snapshot → ℕ → Snapshot
  touch s now = record s {
    touched = now;
    expires = if leb s.expires now then now + p.soft_expiry_ms else s.expires;
  }

  unfoldable pub accept :
      Store → Body → Snapshot → Published → ℕ → Store × Outcome CatalogError Access
  accept st b s q now =
      if is_position q b
      then (
        record st { snapshots = replace (touch s now) st.snapshots },
        ok (record {
          id = s.id;
          expires = (touch s now).expires;
          entries = q.entries;
          method = b.method;
          descriptor = b.descriptor;
          position = b.position;
        }),
      )
      else (st, err unavailable)

  -- `now` is read by the prune, `later` by the touch.
  unfoldable pub authenticate :
      (ℕ → Bool) → Store → Cursor → (now later : ℕ) → Store × Outcome CatalogError Access
  authenticate is_current st c now later =
      let swept : Store = record st { snapshots = prune p is_current now st.snapshots } in
      elim c [
        | malformed ↦ (swept, err unavailable)
        | cursor b signature ↦ elim (lookup b.id swept.snapshots) [
          | none ↦ (swept, err unavailable)
          | some s ↦ elim s.published [
            | none ↦ (swept, err unavailable)
            | some q ↦
                if signature == mac st.key b
                then accept swept b s q later
                else (swept, err unavailable)
          ]
        ]
      ]

-- `invalidate`: the key that signed the cursors before is gone.
unfoldable pub invalidate : ℕ → Store → Store
invalidate new_key st = record { key = new_key; is_closed = true; snapshots = [] }
