-- ===== src/Catalog/Served.antt =====
-- What `catalogPage` and `describePage` of src/core/catalog-snapshot-store.ts return.
use kiro_fabric.Prelude.{ℕ, ◌≤◌, Bool, ◌≡◌, Option, none, some, get_elem?, ok}
use kiro_fabric.Catalog.Store.{Policy, Store, Entry}
use kiro_fabric.Catalog.Cursors.{Body, Cursor, Access}
use kiro_fabric.Catalog.Cursors.Laws.{Authentic}
use kiro_fabric.Catalog.Pages.{CatalogPage, DescriptorPage, Budget, Json, budgets}
use kiro_fabric.Catalog.Pages.Lists.{IsListPage}
use kiro_fabric.Catalog.Pages.Chunks.{IsChunk}

abbrev limit_of : Option ℕ → ℕ
limit_of none = 30
limit_of (some n) = n

module _ (json : Json) (mac : ℕ → Body → ℕ) (p : Policy) (f : ℕ → Bool) (st : Store)
    (c : Cursor) where
  pub record ListServed (limit max_bytes : Option ℕ) (max_chars now : ℕ) (page : CatalogPage)
      : Type 0 where
    pub access : Access
    pub budget : Budget
    pub authentic : Authentic mac p f now st c access
    pub budgeted : budgets max_bytes max_chars ≡ ok budget
    pub limited : limit_of limit ≤ 100
    pub served : IsListPage json mac p st.key access budget (limit_of limit) page

  pub record ChunkServed (max_bytes : Option ℕ) (max_chars now : ℕ) (page : DescriptorPage)
      : Type 0 where
    pub access : Access
    pub budget : Budget
    pub descriptor : ℕ
    pub entry : Entry
    pub authentic : Authentic mac p f now st c access
    pub budgeted : budgets max_bytes max_chars ≡ ok budget
    pub found : get_elem? access.entries descriptor ≡ some entry
    pub served : IsChunk json mac p st.key access budget entry descriptor page
