-- ===== src/ResultStore.antt =====
-- src/fovea/result-store.ts: retained Navigator results, read back in pages.
-- Ids and owner fields are numbers that are only compared. A random id is an argument of `put`, and
-- so is the clock's reading of every call. The keyed digest of a cursor, Node's createHmac, is the
-- parameter `mac`.
pub mod Keys
pub mod Invariant
pub mod History
pub mod Access
pub mod Paging
pub mod Search
mod Tests
use kiro_fabric.Prelude.{
  ℕ, zero, suc, ◌+◌, ◌-◌, min, Bool, true, false, ◌&&◌, ◌||◌, not, ltb, leb, ◌==◌, if◌then◌else◌,
  List, [], ◌∷◌, ◌++◌, Option, none, some, length, take, drop, get_or, Text, slice,
  is_high_surrogate, index_of_from, Outcome, ok, err, ◌>>=◌, ◌>>◌, throw_if,
}

pub record ResultOwner : Type 0 where
  pub conversation_id : ℕ
  pub conversation_epoch : ℕ
  pub root_id : ℕ
  pub authorization_epoch : ℕ
  pub engine_generation : ℕ

pub record Stored : Type 0 where
  pub owner : ResultOwner
  pub text : Text
  pub expires_at : ℕ

pub data StoreError : Type 0 where
  json_budget page_budget bad_cursor foreign_cursor bad_offset bad_search unavailable : StoreError

-- `entries` is the Map in insertion order.
pub record ResultStore : Type 0 where
  pub entries : List (ℕ × Stored)
  pub chars : ℕ
  pub ttl_ms : ℕ

abbrev pub max_entries : ℕ
max_entries = 32

abbrev pub max_chars : ℕ
max_chars = 4_000_000

abbrev pub max_text : ℕ
max_text = 512_000

unfoldable pub same : ResultOwner → ResultOwner → Bool
same a b =
    a.conversation_id == b.conversation_id
    && a.conversation_epoch == b.conversation_epoch
    && a.root_id == b.root_id
    && a.authorization_epoch == b.authorization_epoch
    && a.engine_generation == b.engine_generation

unfoldable pub lookup : ℕ → List (ℕ × Stored) → Option Stored
lookup id [] = none
lookup id ((key, e) ∷ rest) = if key == id then some e else lookup id rest

-- `#delete` of every entry that the test picks, in one walk over the Map.
unfoldable pub delete_where : (Stored → Bool) → List (ℕ × Stored) → ℕ → List (ℕ × Stored) × ℕ
delete_where test [] chars = ([], chars)
delete_where test ((id, e) ∷ rest) chars =
    let (kept, left) = delete_where test rest (if test e then chars - length e.text else chars) in
    if test e then (kept, left) else ((id, e) ∷ kept, left)

unfoldable pub delete_all : (Stored → Bool) → ResultStore → ResultStore
unfolding delete_where
delete_all test s =
    let (kept, left) = delete_where test s.entries s.chars in
    record s { entries = kept; chars = left }

unfoldable pub sweep : ResultStore → ℕ → ResultStore
unfolding delete_all
sweep s now = delete_all (λ e. leb e.expires_at now) s

unfoldable pub revoke : ResultStore → ℕ → ℕ → ResultStore
unfolding delete_all
revoke s root_id authorization_epoch =
    delete_all
      (λ e. e.owner.root_id == root_id && e.owner.authorization_epoch == authorization_epoch) s

unfoldable pub clear : ResultStore → ResultStore
clear s = record s { entries = []; chars = 0 }

-- The `while` loop of `put`: it deletes the oldest entry until the new text fits. On an empty Map
-- the source deletes nothing and would test again for ever, which is `none`.
unfoldable pub make_room : List (ℕ × Stored) → ℕ → ℕ → Option (List (ℕ × Stored) × ℕ)
make_room [] chars size = if ltb max_chars (chars + size) then none else some ([], chars)
make_room ((id, e) ∷ rest) chars size =
    let more = make_room rest (chars - length e.text) size in
    if leb max_entries (length ((id, e) ∷ rest)) || ltb max_chars (chars + size)
    then more
    else some ((id, e) ∷ rest, chars)

-- `text` is the serialised value; `fabricJsonText` refuses it above its limit. `none` is a call
-- that does not return.
unfoldable pub put :
    ResultStore → ResultOwner → Text → ℕ → ℕ → Option (Outcome StoreError ResultStore)
put s owner text id now =
    if ltb max_text (length text)
    then some (err json_budget)
    else let swept = sweep s now in
      elim (make_room swept.entries swept.chars (length text)) [
        | none ↦ none
        | some (kept, left) ↦ some (
            ok (record swept {
              entries =
                  kept
                  ++ (id, record { owner = owner; text = text; expires_at = now + s.ttl_ms }) ∷ [];
              chars = left + length text;
            }))
      ]

-- `#get`, on the store that its own `#sweep` leaves.
unfoldable pub get : ResultStore → ResultOwner → ℕ → Outcome StoreError Stored
get s owner id = elim (lookup id s.entries) [
  | none ↦ err unavailable
  | some e ↦ if same e.owner owner then ok e else err unavailable
]

-- A cursor's text: one that the pattern `offset.digest` refuses, one whose offset is written with
-- leading zeros, so that it is not the text that is issued, and any other.
pub data Cursor : Type 0 where
  malformed padded : Cursor
  cursor : ℕ → ℕ → Cursor

pub record Page : Type 0 where
  pub text : Text
  pub offset : ℕ
  pub total_chars : ℕ
  pub is_done : Bool
  pub next_cursor : Option Cursor

pub record Match : Type 0 where
  pub offset : ℕ
  pub excerpt : Text

pub record SearchResult : Type 0 where
  pub matches : List Match
  pub is_truncated : Bool

-- Where a page that starts at `offset` ends: never behind the first half of a surrogate pair.
unfoldable pub page_end : Text → ℕ → ℕ → ℕ
page_end text offset max_page =
    let end = min (length text) (offset + max_page) in
    if ltb end (length text) && is_high_surrogate (get_or text (end - 1) 0) then end - 1 else end

module _ (mac : ℕ → ℕ → ℕ) where
  unfoldable pub issue : ℕ → ℕ → Cursor
  issue id offset = cursor offset (mac id offset)

  -- `#offset`: the offset of an authentic cursor. `\d{1,8}` bounds it.
  unfoldable pub offset_of : ℕ → Option Cursor → Outcome StoreError ℕ
  offset_of id none = ok 0
  offset_of id (some malformed) = err bad_cursor
  offset_of id (some padded) = err foreign_cursor
  offset_of id (some (cursor offset digest)) =
      if leb 100_000_000 offset
      then err bad_cursor
      else if digest == mac id offset
      then ok offset
      else err foreign_cursor

  unfoldable pub make_page : Text → ℕ → ℕ → ℕ → Page
  make_page text id offset max_page =
      let end = page_end text offset max_page in
      record {
        text = slice text offset end;
        offset = offset;
        total_chars = length text;
        is_done = end == length text;
        next_cursor = if ltb end (length text) then some (issue id end) else none;
      }

  unfoldable pub page :
      ResultStore → ResultOwner → ℕ → Option Cursor → ℕ → ℕ → ResultStore × Outcome StoreError Page
  page s owner id from max_page now =
      if ltb max_page 256 || ltb 32_000 max_page
      then (s, err page_budget)
      else let swept = sweep s now in
        (
          swept,
          do
            e ← get swept owner id
            offset ← offset_of id from
            throw_if (ltb (length e.text) offset) bad_offset
            ok (make_page e.text id offset max_page),
        )

-- The `while` loop of `search`, with the rounds left: the matches, and where the loop stopped.
unfoldable pub find_matches : ℕ → Text → Text → ℕ → List Match × ℕ
find_matches zero query text offset = ([], offset)
find_matches (suc rounds) query text offset = elim (index_of_from query text offset) [
  | none ↦ ([], offset)
  | some found ↦
      let rest = find_matches rounds query text (found + length query) in
      (
        record { offset = found; excerpt = slice text (found - 80) (found + length query + 80) }
            ∷ rest.0,
        rest.1,
      )
]

unfoldable pub search :
    ResultStore → ResultOwner → ℕ → Text → ℕ → ℕ → ResultStore × Outcome StoreError SearchResult
search s owner id query limit now =
    if length query == 0 || ltb 256 (length query) || ltb limit 1 || ltb 32 limit
    then (s, err bad_search)
    else let swept = sweep s now in
      (
        swept,
        do
          e ← get swept owner id
          let found = find_matches limit query e.text 0
          ok (record {
            matches = found.0;
            is_truncated = elim (index_of_from query e.text found.1) [
              | none ↦ false
              | some _ ↦ true
            ];
          }),
      )
