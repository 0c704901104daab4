-- ===== src/Catalog/Cursors/Laws.antt =====
-- Which cursors `authenticate` of src/core/catalog-snapshot-store.ts accepts.
use kiro_fabric.Prelude.{
  ℕ, ◌+◌, ◌≤◌, ◌<◌, Bool, true, not, ◌||◌, ◌≡◌, refl, ap, subst, All, List, [], ◌∷◌, Bool-cases,
  none, some, length, get_elem?, arith, ◌==◌, Option-cases, inl, inr, if_cases, option_cases,
  Outcome, ok, ok-injective,
}
use kiro_fabric.Catalog.Store.{
  Policy, Store, Snapshot, Published, Entry, CatalogError, lookup, prune, are_current, is_expired,
}
use kiro_fabric.Catalog.Cursors.{
  Body, Cursor, malformed, cursor, Access, is_position, accept, authenticate,
}

-- The snapshot is one of the list.
pub data Holds (s : Snapshot) : List Snapshot → Type 0 where
  at_head : {ss : List Snapshot} → Holds s (s ∷ ss)
  in_tail : {t : Snapshot} {ss : List Snapshot} → Holds s ss → Holds s (t ∷ ss)

are_current-All : (f : ℕ → Bool) (ds : List ℕ) → are_current f ds ≡ true → All (λ d. f d ≡ true) ds
unfolding are_current
are_current-All f [] h = tt
are_current-All f (d ∷ ds) h = (ground (arith, h), are_current-All f ds (ground (arith, h)))

module _ (mac : ℕ → Body → ℕ) (p : Policy) where
  -- What stands behind an accepted cursor: a body signed with the store's key, a snapshot that is
  -- published, current, and within its absolute and its idle time, and a position within its list or
  -- within the descriptor's text.
  pub record Authentic (f : ℕ → Bool) (now : ℕ) (st : Store) (c : Cursor) (a : Access)
      : Type 0 where
    pub body : Body
    pub snapshot : Snapshot
    pub published : Published
    pub signed : c ≡ cursor body (mac st.key body)
    pub held : Holds snapshot st.snapshots
    pub named : snapshot.id ≡ body.id
    pub current : All (λ d. f d ≡ true) snapshot.dependencies
    pub young : now < snapshot.created + p.absolute_ms
    pub used : now < snapshot.touched + p.idle_ms
    pub shown : snapshot.published ≡ some published
    pub entries : a.entries ≡ published.entries
    pub method : a.method ≡ body.method
    pub descriptor : a.descriptor ≡ body.descriptor
    pub position : a.position ≡ body.position
    pub in_list : a.descriptor ≡ none → a.position ≤ length a.entries
    pub in_text :
        (d : ℕ)
        → a.descriptor ≡ some d
        → (e : Entry) × (get_elem? a.entries d ≡ some e) × (a.position ≤ length e.text)

  pub record Accepts (f : ℕ → Bool) (now : ℕ) (st : Store) (c : Cursor)
      (x : Store × Outcome CatalogError Access) : Type 0 where
    pub result : (a : Access) → x.1 ≡ ok a → Authentic f now st c a

  -- A snapshot of the list that is current and within its times.
  record Lives (f : ℕ → Bool) (now id : ℕ) (s : Snapshot) (ss : List Snapshot) : Type 0 where
    held : Holds s ss
    named : s.id ≡ id
    current : All (λ d. f d ≡ true) s.dependencies
    young : now < s.created + p.absolute_ms
    used : now < s.touched + p.idle_ms

  -- What is found after the sweep was there before it, and lives.
  prune-Lives :
      (f : ℕ → Bool) (now id : ℕ) (ss : List Snapshot) (s : Snapshot)
      → lookup id (prune p f now ss) ≡ some s
      → Lives f now id s ss
  unfolding prune is_expired lookup
  prune-Lives f now id [] s h = absurd (ground (arith, h))
  prune-Lives f now id (t ∷ ss) s h = elim (Bool-cases (is_expired p f now t || not (t.id == id))) [
    | inl other ↦
        let rest = prune-Lives f now id ss s (ground (arith, h, other)) in
        record {
          held = in_tail rest.held;
          named = rest.named;
          current = rest.current;
          young = rest.young;
          used = rest.used;
        }
    | inr hit ↦
        let same : t ≡ s = ground (arith, h, hit) in
        subst (λ x. Lives f now id x (t ∷ ss)) same
          (record {
            held = at_head;
            named = ground (arith, hit);
            current = are_current-All f t.dependencies (ground (arith, hit));
            young = ground (arith, hit);
            used = ground (arith, hit);
          })
  ]

  position_in_list :
      (q : Published) (b : Body)
      → is_position q b ≡ true
      → b.descriptor ≡ none
      → b.position ≤ length q.entries
  unfolding is_position
  position_in_list q b h n = ground (arith, h, n)

  position_in_text :
      (q : Published) (b : Body) (d : ℕ)
      → is_position q b ≡ true
      → b.descriptor ≡ some d
      → (e : Entry) × (get_elem? q.entries d ≡ some e) × (b.position ≤ length e.text)
  unfolding is_position
  position_in_text q b d h s = elim (Option-cases (get_elem? q.entries d)) [
    | inl missing ↦ absurd (ground (arith, h, s, missing))
    | inr (e, found) ↦ (e, found, ground (arith, h, s, found))
  ]

  accept-Accepts :
      (f : ℕ → Bool) (now : ℕ) (st : Store) (b : Body) (s : Snapshot) (q : Published) (later : ℕ)
      (signature : ℕ)
      → Lives f now b.id s st.snapshots
      → s.published ≡ some q
      → signature ≡ mac st.key b
      → Accepts f now st
          (cursor b signature)
          (accept mac p (record st { snapshots = prune p f now st.snapshots }) b s q later)
  unfolding accept
  accept-Accepts f now st b s q later signature lives shown signed =
      if_cases (Accepts f now st (cursor b signature)) (is_position q b)
        (λ within. record {
          result = λ a h. subst (Authentic f now st (cursor b signature)) (ok-injective h) (record {
            body = b;
            snapshot = s;
            published = q;
            signed = ap (cursor b) signed;
            held = lives.held;
            named = lives.named;
            current = lives.current;
            young = lives.young;
            used = lives.used;
            shown = shown;
            entries = refl;
            method = refl;
            descriptor = refl;
            position = refl;
            in_list = position_in_list q b within;
            in_text = λ d. position_in_text q b d within;
          });
        })
        (λ _. record { result = λ a h. absurd (ground (arith, h)) })

  -- A cursor is accepted only if it is signed with the present key of the store, for a snapshot of
  -- the store that is published, whose dependencies are all current, and that is within its
  -- absolute and its idle time, and for a position within its list or within the text of one of
  -- its descriptors.
  pub authenticate-Accepts :
      (f : ℕ → Bool) (st : Store) (c : Cursor) (now later : ℕ)
      → Accepts f now st c (authenticate mac p f st c now later)
  unfolding authenticate
  authenticate-Accepts f st malformed now later = record {
    result = λ a h. absurd (ground (arith, h));
  }
  authenticate-Accepts f st (cursor b signature) now later =
      let A = Accepts f now st (cursor b signature) in
      option_cases A (lookup b.id (prune p f now st.snapshots))
        (λ _. record { result = λ a h. absurd (ground (arith, h)) })
        λ s held.
          option_cases A s.published (λ _. record { result = λ a h. absurd (ground (arith, h)) })
            λ q shown.
              if_cases A (signature == mac st.key b)
                (λ same.
                  accept-Accepts f now st b s q later signature
                    (prune-Lives f now b.id st.snapshots s held) shown (ground (arith, same)))
                (λ _. record { result = λ a h. absurd (ground (arith, h)) })
