-- ===== src/ResultStore/Search.antt =====
-- The literal search in a retained result of src/fovea/result-store.ts.
use kiro_fabric.Prelude.{
  ℕ, zero, suc, ◌+◌, ◌≤◌, ◌<◌, true, ◌≡◌, refl, sym, ap, subst, ◌⊎◌, inl, inr, ◌≢◌, List, [], ◌∷◌,
  none, length, arith, Option-cases, Outcome-cases, ltb, Bool-cases, ok, Text, index_of_from,
  occurs, IsFirstFrom, index_of_from-IsFirstFrom, index_of_from-absent,
}
use kiro_fabric.ResultStore.{
  Stored, ResultStore, ResultOwner, Match, SearchResult, sweep, get, find_matches, search,
}
use kiro_fabric.ResultStore.Invariant.{IsValid}
use kiro_fabric.ResultStore.Access.{Grants, get-Grants}

-- Each match is the first occurrence behind the match before it.
abbrev pub Scans : Text → Text → ℕ → List Match → ℕ → Type 0
Scans query text offset [] stop = offset ≡ stop
Scans query text offset (m ∷ ms) stop =
    IsFirstFrom query text offset m.offset × Scans query text (m.offset + length query) ms stop

-- A position lies in one of the matches.
abbrev pub Covers : Text → List Match → ℕ → Type 0
Covers query [] j = ⊥
Covers query (m ∷ ms) j = ((m.offset ≤ j) × (j < m.offset + length query)) ⊎ Covers query ms j

find_matches-Scans :
    (rounds : ℕ) (query text : Text) (offset : ℕ)
    → Scans query text offset
        (find_matches rounds query text offset).0
        (find_matches rounds query text offset).1
unfolding find_matches
find_matches-Scans zero query text offset = refl
find_matches-Scans (suc rounds) query text offset =
    elim (Option-cases (index_of_from query text offset)) [
      | inl gone ↦ rw (gone, find_matches) refl
      | inr (found, e) ↦
          rw (e, find_matches)
            (
              index_of_from-IsFirstFrom query text offset found e,
              find_matches-Scans rounds query text (found + length query),
            )
    ]

find_matches-length-le :
    (rounds : ℕ) (query text : Text) (offset : ℕ)
    → length (find_matches rounds query text offset).0 ≤ rounds
unfolding find_matches
find_matches-length-le zero query text offset = omega arith
find_matches-length-le (suc rounds) query text offset =
    elim (Option-cases (index_of_from query text offset)) [
      | inl gone ↦ rw (gone, find_matches) (omega arith)
      | inr (found, e) ↦
          rw (e, find_matches)
            (omega (arith, find_matches-length-le rounds query text (found + length query)))
    ]

-- An occurrence that no match covers lies behind the scan.
Scans-Covers :
    (query text : Text) (offset stop : ℕ) (ms : List Match) (j : ℕ)
    → Scans query text offset ms stop
    → offset ≤ j
    → occurs query text j ≡ true
    → Covers query ms j ⊎ (stop ≤ j)
Scans-Covers query text offset stop [] j s le here = inr (omega arith)
Scans-Covers query text offset stop (m ∷ ms) j s le here = elim (Bool-cases (ltb j m.offset)) [
  | inl before ↦ absurd (ground (arith, s.0.earlier j le, here, before))
  | inr behind ↦ elim (Bool-cases (ltb j (m.offset + length query))) [
    | inl inside ↦ inl (inl (ground (arith, behind), ground (arith, inside)))
    | inr beyond ↦
        elim (Scans-Covers query text (m.offset + length query) stop ms j s.1
          (ground (arith, beyond)) here) [ inl c ↦ inl (inr c) | inr r ↦ inr r ]
  ]
]

-- What `search` promises of a result that is returned.
pub record IsSearchOf (query text : Text) (limit : ℕ) (r : SearchResult) : Type 0 where
  pub stop : ℕ
  pub scanned : Scans query text 0 r.matches stop
  pub limited : length r.matches ≤ limit
  pub complete :
      (j : ℕ) → occurs query text j ≡ true → Covers query r.matches j ⊎ (r.is_truncated ≡ true)

-- The result that the loop and the last test of `search` make.
find_matches-IsSearchOf :
    (query text : Text) (limit : ℕ) (r : SearchResult)
    → query ≢ []
    → r.matches ≡ (find_matches limit query text 0).0
    → ((index_of_from query text (find_matches limit query text 0).1 ≡ none)
        ⊎ (r.is_truncated ≡ true))
    → IsSearchOf query text limit r
find_matches-IsSearchOf query text limit r q e last = record {
  stop = stop;
  scanned = subst (λ ms. Scans query text 0 ms stop) (sym e) scan;
  limited = rw e (find_matches-length-le limit query text 0);
  complete = λ j here.
      elim (Scans-Covers query text 0 stop (find_matches limit query text 0).0 j scan (omega arith)
        here) [
          | inl c ↦ inl (subst (λ ms. Covers query ms j) (sym e) c)
          | inr behind ↦ elim last [
            | inl gone ↦
                absurd (ground (arith, here, index_of_from-absent query text stop j q gone behind))
            | inr cut ↦ inr cut
          ]
        ];
}
  where
    stop : ℕ
    stop = (find_matches limit query text 0).1

    scan : Scans query text 0 (find_matches limit query text 0).0 stop
    scan = find_matches-Scans limit query text 0

-- On a valid store, a search that returns reads an unexpired entry of its owner; it reports at
-- most limit occurrences, each the first behind the match before it, and covers every occurrence
-- of the query unless it says that it was cut short.
pub search-IsSearchOf :
    (s : ResultStore) (owner : ResultOwner) (id : ℕ) (query : Text) (limit now : ℕ)
    (r : SearchResult)
    → IsValid s
    → (search s owner id query limit now).1 ≡ ok r
    → (e : Stored) × Grants s owner id now e × IsSearchOf query e.text limit r
unfolding search
search-IsSearchOf s owner id query limit now r v h =
    elim (Outcome-cases (get (sweep s now) owner id)) [
      | inl (e, g) ↦ (
        e,
        get-Grants s owner id now e v g,
        find_matches-IsSearchOf query e.text limit r (λ q. ground (arith, h, ap length q))
            (ground (arith, h, g))
            (elim (Option-cases
              (index_of_from query e.text (find_matches limit query e.text 0).1)) [
                | inl gone ↦ inl gone
                | inr (k, found) ↦ inr (ground (arith, h, g, found))
              ]),
      )
      | inr (f, g) ↦ absurd (ground (arith, h, g))
    ]
