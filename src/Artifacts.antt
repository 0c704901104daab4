-- ===== src/Artifacts.antt =====
-- The artifact store of src/kiro/artifacts.ts. The file system is an argument of each call (`Disk`):
-- whether the guard of the root passes, what a removal and a creation of a file do. The order of
-- localeCompare is a parameter, and the random id of a write an argument.

pub mod Entries
pub mod Sweeps
pub mod Invariant
pub mod History
pub mod Reads
pub mod Expiry
pub mod Served
pub mod Room
pub mod Writes
pub mod Succeeds
pub mod Closing
mod Tests
use kiro_fabric.Prelude.{
  same_text, ℕ, zero, suc, ◌+◌, ◌-◌, min, Bool, true, false, ◌&&◌, ◌||◌, not, ltb, leb, ◌==◌,
  if◌then◌else◌, List, [], ◌∷◌, ◌++◌, Option, none, some, length, get_or, Text, slice,
  is_high_surrogate, is_low_surrogate, Outcome, ok, err,
}

pub record StoredArtifact : Type 0 where
  pub id : Text
  pub content : Text
  pub last_read_at : ℕ
  -- It is kept in a file whose identity is known.
  pub has_file : Bool

pub data ArtifactError : Type 0 where
  invalid_bounds closed root_changed cleanup_uncertain too_large quota_exceeded protected_full :
      ArtifactError
  store_empty removal_failed creation_failed invalid_id unavailable invalid_range : ArtifactError
  splits_character limit_too_small cleanup_failed : ArtifactError

pub record ArtifactStore : Type 0 where
  pub entries : List StoredArtifact
  pub failed_writes : List Text
  pub uncertain_closes : ℕ
  pub has_root : Bool
  pub max_artifacts : ℕ
  pub max_artifact_chars : ℕ
  pub max_total_chars : ℕ
  pub ttl_ms : ℕ
  pub total_chars : ℕ
  pub is_closed : Bool

-- A call leaves a store, whether it returns or throws.
abbrev pub Call : Type 0 → Type 0
Call A = ArtifactStore × Outcome ArtifactError A

-- `#removeFile`: the file is gone, or it throws, perhaps with a descriptor whose close is uncertain.
pub data Removal : Type 0 where
  removed refused uncertain : Removal

-- The part of a write that creates the file. A failure leaves a residue or none, and closes that are
-- uncertain.
pub data Creation : Type 0 where
  created : Creation
  fails : (residue : Bool) → (uncertain_closes : ℕ) → Creation

pub record Disk : Type 0 where
  -- The guard of the root, on entry and in the sweep.
  pub is_guarded : Bool
  pub is_sweep_guarded : Bool
  pub removes : Text → Removal
  pub removes_residue : Text → Removal
  pub creates : Creation

-- Each bound is a natural number or not given.
pub record ArtifactBounds : Type 0 where
  pub max_artifacts : Option ℕ
  pub max_artifact_chars : Option ℕ
  pub max_total_chars : Option ℕ
  pub ttl_ms : Option ℕ

abbrev pub or_else : Option ℕ → ℕ → ℕ
or_else none fallback = fallback
or_else (some n) fallback = n

-- The bounds of the constructor; the checks of the root come behind them.
unfoldable pub make_artifact_store : ArtifactBounds → Bool → Outcome ArtifactError ArtifactStore
make_artifact_store o has_root =
    let artifacts = or_else o.max_artifacts 32 in
    let artifact_chars = or_else o.max_artifact_chars 2_000_000 in
    let total_chars = or_else o.max_total_chars 8_000_000 in
    let ttl = or_else o.ttl_ms 3_600_000 in
    if ltb artifacts 1 || ltb artifact_chars 1 || ltb total_chars 1 || ltb ttl 1
    then err invalid_bounds
    else ok (record {
      entries = [];
      failed_writes = [];
      uncertain_closes = 0;
      has_root = has_root;
      max_artifacts = artifacts;
      max_artifact_chars = artifact_chars;
      max_total_chars = total_chars;
      ttl_ms = ttl;
      total_chars = 0;
      is_closed = false;
    })

unfoldable pub make_checkpoint_store : ArtifactBounds → Outcome ArtifactError ArtifactStore
make_checkpoint_store o =
    make_artifact_store
      (record {
        max_artifacts = some (min (or_else o.max_artifacts 16) 16);
        max_artifact_chars = some (min (or_else o.max_artifact_chars 100_000) 100_000);
        max_total_chars = some (min (or_else o.max_total_chars 400_000) 400_000);
        ttl_ms = some (min (or_else o.ttl_ms 900_000) 900_000);
      })
      false

unfoldable pub has : Text → List Text → Bool
has id [] = false
has id (x ∷ xs) = same_text id x || has id xs

unfoldable pub find : Text → List StoredArtifact → Option StoredArtifact
find id [] = none
find id (e ∷ es) = if same_text id e.id then some e else find id es

-- `map.delete(id)`, for entries with a key.
unfoldable pub delete : {A : Type 0} → (A → Text) → Text → List A → List A
delete key id [] = []
delete key id (e ∷ es) = if same_text id (key e) then es else e ∷ delete key id es

abbrev pub id_of : StoredArtifact → Text
id_of e = e.id

abbrev pub itself : Text → Text
itself file = file

-- `entry.lastReadAt = now`.
unfoldable pub touch : Text → ℕ → List StoredArtifact → List StoredArtifact
touch id now [] = []
touch id now (e ∷ es) =
    if same_text id e.id then (record e { last_read_at = now }) ∷ es else e ∷ touch id now es

abbrev pub is_hex : ℕ → Bool
is_hex c = (leb 48 c && leb c 57) || (leb 97 c && leb c 102)

abbrev pub is_all_hex : Text → Bool
is_all_hex [] = true
is_all_hex (c ∷ cs) = is_hex c && is_all_hex cs

-- `^ka_[a-f0-9]{48}$`.
abbrev pub is_artifact_id : Text → Bool
is_artifact_id (k ∷ a ∷ l ∷ cs) =
    (k == 107) && (a == 97) && (l == 95) && (length cs == 48) && is_all_hex cs
is_artifact_id other = false

-- `#open`.
abbrev pub open_error : Disk → ArtifactStore → Option ArtifactError
open_error d s =
    if s.is_closed
    then some closed
    else if s.has_root && not d.is_guarded
    then some root_changed
    else none

unfoldable pub remove : Disk → Text → ArtifactStore → Call (Unit {0})
remove d id s = elim (find id s.entries) [
  | none ↦ (s, ok tt)
  | some e ↦
      let dropped : ArtifactStore = record s {
        entries = delete id_of id s.entries;
        total_chars = s.total_chars - length e.content;
      } in
      if e.has_file
      then elim (d.removes id) [
        | removed ↦ (dropped, ok tt)
        | refused ↦ (s, err removal_failed)
        | uncertain ↦ (record s { uncertain_closes = s.uncertain_closes + 1 }, err removal_failed)
      ]
      else (dropped, ok tt)
]

unfoldable pub sum_chars : List StoredArtifact → ℕ
sum_chars [] = 0
sum_chars (e ∷ es) = length e.content + sum_chars es

module _ (is_before : Text → Text → Bool) where
  abbrev pub is_older : StoredArtifact → StoredArtifact → Bool
  is_older a b =
      ltb a.last_read_at b.last_read_at
      || ((a.last_read_at == b.last_read_at) && is_before a.id b.id)

  -- The first entry of the sorted ones that are not protected.
  unfoldable pub oldest : List Text → List StoredArtifact → Option StoredArtifact
  oldest kept [] = none
  oldest kept (e ∷ es) =
      let rest = oldest kept es in
      if has e.id kept
      then rest
      else elim rest [ none ↦ some e | some o ↦ if is_older o e then some o else some e ]

  -- The first loop of `sweep`, over the entries as they were.
  unfoldable pub sweep_expired :
      Disk → (now max_age : ℕ) → List StoredArtifact → ArtifactStore → Call (Unit {0})
  sweep_expired d now max_age [] s = (s, ok tt)
  sweep_expired d now max_age (e ∷ es) s =
      let gone = remove d e.id s in
      let after = sweep_expired d now max_age es gone.0 in
      let skipped = sweep_expired d now max_age es s in
      if ltb max_age (now - e.last_read_at)
      then elim gone.1 [ err x ↦ (gone.0, err x) | ok u ↦ after ]
      else skipped

  -- A loop that removes the oldest entry while the test holds. It ends within a round for each entry.
  unfoldable pub remove_oldest :
      ℕ → Disk → List Text → (ArtifactStore → Bool) → ArtifactStore → Call (Unit {0})
  remove_oldest zero d kept is_full s = if is_full s then (s, err store_empty) else (s, ok tt)
  remove_oldest (suc rounds) d kept is_full s =
      if is_full s
      then elim (oldest kept s.entries) [
        | none ↦ (s, err store_empty)
        | some o ↦
            let gone = remove d o.id s in
            let after = remove_oldest rounds d kept is_full gone.0 in
            elim gone.1 [ err x ↦ (gone.0, err x) | ok u ↦ after ]
      ]
      else (s, ok tt)

  abbrev pub has_many : ℕ → ArtifactStore → Bool
  has_many max_entries s = ltb max_entries (length s.entries)

  unfoldable pub sweep : Disk → (now max_age max_entries : ℕ) → ArtifactStore → Call (Unit {0})
  sweep d now max_age max_entries s =
      let expired = sweep_expired d now max_age s.entries s in
      let crowd = remove_oldest (length expired.0.entries) d [] (has_many max_entries) expired.0 in
      elim (open_error d s) [
        | some x ↦ (s, err x)
        | none ↦
            if s.has_root && not d.is_sweep_guarded
            then (s, err root_changed)
            else elim expired.1 [ err x ↦ (expired.0, err x) | ok u ↦ crowd ]
      ]

  -- The entries of a list of ids: their number and size.
  unfoldable pub retained : List Text → List StoredArtifact → List StoredArtifact
  retained kept [] = []
  retained kept (e ∷ es) = if has e.id kept then e ∷ retained kept es else retained kept es

  abbrev pub is_crowded : ℕ → ArtifactStore → Bool
  is_crowded chars s =
      leb s.max_artifacts (length s.entries) || ltb s.max_total_chars (s.total_chars + chars)

  -- The end of a write: the file, and the entry.
  unfoldable pub store_entry : Disk → ℕ → Text → Text → ArtifactStore → Call Text
  store_entry d now id content s =
      let stored : ArtifactStore = record s {
        entries =
            s.entries
            ++ (record { id = id; content = content; last_read_at = now; has_file = s.has_root })
              ∷ [];
        total_chars = s.total_chars + length content;
      } in
      if s.has_root
      then elim d.creates [
        | created ↦ (stored, ok id)
        | fails residue n ↦ (
          record s {
            failed_writes = if residue then s.failed_writes ++ id ∷ [] else s.failed_writes;
            uncertain_closes = s.uncertain_closes + n;
          },
          err creation_failed,
        )
      ]
      else (stored, ok id)

  unfoldable pub write :
      Disk → (swept_at now : ℕ) → (id content : Text) → List Text → ArtifactStore → Call Text
  write d swept_at now id content kept s =
      let swept = sweep d swept_at s.ttl_ms s.max_artifacts s in
      let v = swept.0 in
      let held = retained kept v.entries in
      let room = remove_oldest (length v.entries) d kept (is_crowded (length content)) v in
      elim (open_error d s) [
        | some x ↦ (s, err x)
        | none ↦
            if ltb 0 (length s.failed_writes) || ltb 0 s.uncertain_closes
            then (s, err cleanup_uncertain)
            else if ltb s.max_artifact_chars (length content)
            then (s, err too_large)
            else if ltb s.max_total_chars (length content)
            then (s, err quota_exceeded)
            else elim swept.1 [
              | err x ↦ (v, err x)
              | ok u ↦
                  if leb v.max_artifacts (length held)
                    || ltb v.max_total_chars (length content + sum_chars held)
                  then (v, err protected_full)
                  else elim room.1 [
                    | err x ↦ (room.0, err x)
                    | ok u ↦ store_entry d now id content room.0
                  ]
            ]
      ]

  pub record ArtifactPage : Type 0 where
    pub text : Text
    pub offset : ℕ
    pub next_offset : ℕ
    pub total_chars : ℕ
    pub is_done : Bool

  abbrev pub before_pair : Text → ℕ → ℕ
  before_pair content end =
      if ltb end (length content)
        && (is_high_surrogate (get_or content (end - 1) 0)
            && is_low_surrogate (get_or content end 0))
      then end - 1
      else end

  -- The part of an entry; `none` is an offset or a limit that is no safe natural number.
  unfoldable pub make_page : Text → (offset limit : Option ℕ) → Outcome ArtifactError ArtifactPage
  make_page content none limit = err invalid_range
  make_page content (some offset) none = err invalid_range
  make_page content (some offset) (some limit) =
      let end = before_pair content (min (length content) (offset + min limit 16_000)) in
      let text = slice content offset end in
      if ltb limit 1
      then err invalid_range
      else if ltb 0 offset
          && (is_low_surrogate (get_or content offset 0)
              && is_high_surrogate (get_or content (offset - 1) 0))
      then err splits_character
      else if (end == offset) && ltb offset (length content)
      then err limit_too_small
      else ok (record {
        text = text;
        offset = offset;
        next_offset = offset + length text;
        total_chars = length content;
        is_done = leb (length content) (offset + length text);
      })

  unfoldable pub read :
      Disk
      → (swept_at now : ℕ) → Text
      → (offset limit : Option ℕ) → ArtifactStore
      → Call ArtifactPage
  read d swept_at now id offset limit s =
      let swept = sweep d swept_at s.ttl_ms s.max_artifacts s in
      let v = swept.0 in
      elim (open_error d s) [
        | some x ↦ (s, err x)
        | none ↦ if not (is_artifact_id id) then (s, err invalid_id) else elim swept.1 [
          | err x ↦ (v, err x)
          | ok u ↦ elim (find id v.entries) [
            | none ↦ (v, err unavailable)
            | some e ↦ elim (make_page e.content offset limit) [
              | err x ↦ (v, err x)
              | ok p ↦ (
                record v {
                  entries = if ltb 0 (length p.text) then touch id now v.entries else v.entries;
                },
                ok p,
              )
            ]
          ]
        ]
      ]

-- The loops of `close`, which go on behind a failure; they count the failures.
unfoldable pub remove_all : Disk → List StoredArtifact → ArtifactStore → ArtifactStore × ℕ
remove_all d [] s = (s, 0)
remove_all d (e ∷ es) s =
    let gone = remove d e.id s in
    let rest = remove_all d es gone.0 in
    (rest.0, elim gone.1 [ err x ↦ rest.1 + 1 | ok u ↦ rest.1 ])

unfoldable pub remove_residues : Disk → List Text → ArtifactStore → ArtifactStore × ℕ
remove_residues d [] s = (s, 0)
remove_residues d (f ∷ fs) s = elim (d.removes_residue f) [
  | removed ↦ remove_residues d fs (record s { failed_writes = delete itself f s.failed_writes })
  | refused ↦ let rest = remove_residues d fs s in (rest.0, rest.1 + 1)
  | uncertain ↦
      let rest = remove_residues d fs (record s { uncertain_closes = s.uncertain_closes + 1 }) in
      (rest.0, rest.1 + 1)
]

unfoldable pub close : Disk → ArtifactStore → Call (Unit {0})
close d s =
    let removed_all = remove_all d s.entries s in
    let cleaned = remove_residues d removed_all.0.failed_writes removed_all.0 in
    let failures = removed_all.1 + cleaned.1 + cleaned.0.uncertain_closes in
    if s.is_closed
    then (s, ok tt)
    else if ltb 0 failures
    then (cleaned.0, err cleanup_failed)
    else (record cleaned.0 { is_closed = true }, ok tt)
