-- ===== src/ResultStore/Access.antt =====
-- Who can read a result of src/fovea/result-store.ts, and until when.
use kiro_fabric.Prelude.{
  ℕ, ◌≤◌, ◌<◌, Bool, true, ◌&&◌, ◌≡◌, inl, inr, ◌≢◌, Option, some, length, arith, ◌==◌, leb,
  Outcome-cases, ok,
}
use kiro_fabric.ResultStore.{
  Stored, ResultStore, ResultOwner, Cursor, Page, same, lookup, delete_all, sweep, revoke, get,
  page, offset_of, make_page,
}
use kiro_fabric.ResultStore.Keys.{spared, lookup-survivors}
use kiro_fabric.ResultStore.Invariant.{IsValid, delete_all-entries, delete_all-IsValid}

pub same_iff : (a b : ResultOwner) → same a b ≡ true → a ≡ b
unfolding same
same_iff a b h = ground arith

pub same_refl : (a : ResultOwner) → same a a ≡ true
unfolding same
same_refl a = ground arith

pub lookup-delete_all :
    (test : Stored → Bool) (s : ResultStore) (id : ℕ)
    → IsValid s
    → lookup id (delete_all test s).entries ≡ spared test (lookup id s.entries)
lookup-delete_all test s id v =
    rw (delete_all-entries test s) (lookup-survivors test s.entries id v.distinct)

pub lookup-sweep :
    (s : ResultStore) (now id : ℕ)
    → IsValid s
    → lookup id (sweep s now).entries ≡ spared (λ e. leb e.expires_at now) (lookup id s.entries)
unfolding sweep
lookup-sweep s now id v = lookup-delete_all (λ e. leb e.expires_at now) s id v

-- What `get` finds after the sweep of the same call: an entry of that owner that has not expired.
pub record Grants (s : ResultStore) (owner : ResultOwner) (id now : ℕ) (e : Stored) : Type 0 where
  pub held : lookup id s.entries ≡ some e
  pub owned : e.owner ≡ owner
  pub unexpired : now < e.expires_at

pub get-Grants :
    (s : ResultStore) (owner : ResultOwner) (id now : ℕ) (e : Stored)
    → IsValid s
    → get (sweep s now) owner id ≡ ok e
    → Grants s owner id now e
unfolding get
get-Grants s owner id now e v h = record {
  held = ground (arith, found, lookup-sweep s now id v);
  owned = same_iff e.owner owner (ground (arith, h));
  unexpired = ground (arith, found, lookup-sweep s now id v);
}
  where
    found : lookup id (sweep s now).entries ≡ some e
    found = ground (arith, h)

pub Grants-get :
    (s : ResultStore) (owner : ResultOwner) (id now : ℕ) (e : Stored)
    → IsValid s
    → Grants s owner id now e
    → get (sweep s now) owner id ≡ ok e
unfolding get
Grants-get s owner id now e v g =
    ground (arith, lookup-sweep s now id v, g.held, g.owned, g.unexpired, same_refl owner)

module _ (mac : ℕ → ℕ → ℕ) (s : ResultStore) (owner : ResultOwner) (id : ℕ) (from : Option Cursor)
    (max_page now : ℕ) where
  -- What a page that is returned was cut from.
  pub record Served (p : Page) : Type 0 where
    pub entry : Stored
    pub granted : Grants s owner id now entry
    pub start : offset_of mac id from ≡ ok p.offset
    pub in_range : p.offset ≤ length entry.text
    pub cut : p ≡ make_page mac entry.text id p.offset max_page
    pub wide : 256 ≤ max_page
    pub narrow : max_page ≤ 32_000

  -- On a valid store, a page that is returned was cut from an unexpired entry of exactly the
  -- asking owner, at the offset of an authentic cursor within the text, with a page budget from
  -- 256 to 32,000.
  pub page-Served :
      (p : Page) → IsValid s → (page mac s owner id from max_page now).1 ≡ ok p → Served p
  unfolding page make_page
  page-Served p v h = elim (Outcome-cases (get (sweep s now) owner id)) [
    | inl (e, g) ↦ elim (Outcome-cases (offset_of mac id from)) [
      | inl (o, q) ↦ record {
        entry = e;
        granted = get-Grants s owner id now e v g;
        start = ground (arith, h, g, q);
        in_range = ground (arith, h, g, q);
        cut = ground (arith, h, g, q);
        wide = ground (arith, h);
        narrow = ground (arith, h);
      }
      | inr (f, q) ↦ absurd (ground (arith, h, g, q))
    ]
    | inr (f, g) ↦ absurd (ground (arith, h, g))
  ]

  pub Served-page :
      (e : Stored) (offset : ℕ)
      → IsValid s
      → Grants s owner id now e
      → offset_of mac id from ≡ ok offset
      → offset ≤ length e.text
      → 256 ≤ max_page
      → max_page ≤ 32_000
      → (page mac s owner id from max_page now).1 ≡ ok (make_page mac e.text id offset max_page)
  unfolding page
  Served-page e offset v g q le wide narrow =
      ground (arith, Grants-get s owner id now e v g, q, le, wide, narrow)

-- On a valid store, after the root and authorization epoch of an owner are revoked, no page is
-- returned to that owner, whatever id and cursor it presents.
pub page-revoke :
    (mac : ℕ → ℕ → ℕ) (s : ResultStore) (owner : ResultOwner) (id : ℕ) (from : Option Cursor)
    (max_page now : ℕ) (p : Page)
    → IsValid s
    → (page mac (revoke s owner.root_id owner.authorization_epoch) owner id from max_page now).1
      ≢ ok p
page-revoke mac s owner id from max_page now p v h = ground (arith, gone, g.held, g.owned)
  where
    test : Stored → Bool
    test e =
        e.owner.root_id == owner.root_id && e.owner.authorization_epoch == owner.authorization_epoch

    left : ResultStore
    left = revoke s owner.root_id owner.authorization_epoch

    gone : lookup id left.entries ≡ spared test (lookup id s.entries)
    gone = unfold revoke in lookup-delete_all test s id v

    served : Served mac left owner id from max_page now p
    served =
        page-Served mac left owner id from max_page now p
          (unfold revoke in delete_all-IsValid test s v) h

    g : Grants left owner id now served.entry
    g = served.granted
