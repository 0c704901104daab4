-- ===== src/ResultStore/Tests.antt =====
-- The result store of src/fovea/result-store.ts on a small history.
use kiro_fabric.Prelude.{
  ℕ, ◌+◌, ◌≡◌, ◌≢◌, refl, [], ◌∷◌, none, some, ok, err, arith, Bool, starts_with, index_of,
  index_of_from,
}
use kiro_fabric.ResultStore.{
  ResultStore, ResultOwner, Stored, SearchResult, foreign_cursor, unavailable, cursor, same, lookup,
  delete_where, delete_all, sweep, revoke, clear, make_room, put, get, issue, offset_of, make_page,
  page_end, page, find_matches, search,
}
use kiro_fabric.ResultStore.Invariant.{IsValid, Puts, put-Puts}
use kiro_fabric.ResultStore.History.{Call, step, Reach, Reach-IsValid}
use kiro_fabric.ResultStore.Access.{Grants, Served, page-Served, page-revoke}
use kiro_fabric.ResultStore.Paging.{IsPageEnd, page_end-IsPageEnd, read_pages, read_pages-put}
use kiro_fabric.ResultStore.Search.{IsSearchOf, search-IsSearchOf}

program : Unit {0}
unfolding same lookup delete_where delete_all sweep revoke clear make_room put get issue offset_of
    make_page page_end page find_matches search step starts_with index_of index_of_from
program = tt

abbrev ann : ResultOwner
ann = record {
  conversation_id = 1;
  conversation_epoch = 0;
  root_id = 7;
  authorization_epoch = 2;
  engine_generation = 5;
}

abbrev empty : ResultStore
empty = record { entries = []; chars = 0; ttl_ms = 100 }

abbrev held : Stored
held = record { owner = ann; text = 5 ∷ 6 ∷ 5 ∷ 6 ∷ 5 ∷ []; expires_at = 103 }

abbrev filled : ResultStore
filled = record { entries = (40, held) ∷ []; chars = 5; ttl_ms = 100 }

abbrev digest : ℕ → ℕ → ℕ
digest id offset = id + offset

empty-IsValid : IsValid empty
empty-IsValid = record {
  counted = refl;
  within = omega arith;
  bounded = omega arith;
  distinct = tt;
}

filled-IsValid : IsValid filled
unfolding lookup
filled-IsValid = record {
  counted = refl;
  within = omega arith;
  bounded = omega arith;
  distinct = (refl, tt);
}

stored : put empty ann held.text 40 3 ≡ some (ok filled)
unfolding program
stored = refl

forged : (page digest filled ann 40 (some (cursor 3 1)) 300 50).1 ≡ err foreign_cursor
unfolding program
forged = refl

expired : (page digest filled ann 40 none 300 103).1 ≡ err unavailable
unfolding program
expired = refl

put-Puts_example :
    (t : ResultStore) × (put empty ann held.text 40 3 ≡ some (ok t))
    × Puts empty ann held.text 40 3 t
put-Puts_example = put-Puts empty ann held.text 40 3 empty-IsValid (omega arith)

Reach-IsValid_example : IsValid filled
unfolding program
Reach-IsValid_example =
    Reach-IsValid digest {s = empty} {t = filled} empty-IsValid
      (Reach.next (Call.puts ann held.text 40 3) Reach.here refl refl)

page-Served_example : Served digest filled ann 40 none 300 50 (make_page digest held.text 40 0 300)
unfolding program
page-Served_example =
    page-Served digest filled ann 40 none 300 50 (make_page digest held.text 40 0 300)
      filled-IsValid refl

page-revoke_example :
    (page digest (revoke filled 7 2) ann 40 none 300 50).1
    ≢ ok (make_page digest held.text 40 0 300)
page-revoke_example =
    page-revoke digest filled ann 40 none 300 50 (make_page digest held.text 40 0 300)
      filled-IsValid

page_end-IsPageEnd_example : IsPageEnd held.text 2 256 (page_end held.text 2 256)
page_end-IsPageEnd_example = page_end-IsPageEnd held.text 2 256 (omega arith) (omega arith)

read_pages-put_example :
    read_pages digest (50 ∷ 60 ∷ []) filled ann 40 none 300 ≡ some (ok held.text)
unfolding program
read_pages-put_example =
    read_pages-put digest empty filled ann held.text 40 3 300 (50 ∷ 60 ∷ []) empty-IsValid refl
      (omega arith) refl (omega arith) (omega arith) (omega arith) (omega arith) (omega arith)

abbrev twice : SearchResult
twice = record {
  matches =
      record { offset = 0; excerpt = held.text } ∷ record { offset = 2; excerpt = held.text } ∷ [];
  is_truncated = Bool.false;
}

search-IsSearchOf_example :
    (e : Stored) × Grants filled ann 40 50 e × IsSearchOf (5 ∷ 6 ∷ []) e.text 4 twice
unfolding program
search-IsSearchOf_example =
    search-IsSearchOf filled ann 40 (5 ∷ 6 ∷ []) 4 50 twice filled-IsValid refl
