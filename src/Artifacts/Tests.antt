-- ===== src/Artifacts/Tests.antt =====
-- A small artifact store of src/kiro/artifacts.ts.
use kiro_fabric.Prelude.{
  same_text, ℕ, Bool, true, false, ◌≡◌, refl, [], ◌∷◌, ◌++◌, none, some, Text, arith, ok, replicate,
  length, ap,
}
use kiro_fabric.Artifacts.{
  StoredArtifact, ArtifactStore, ArtifactBounds, Disk, ArtifactPage, removed, refused, created,
  fails, find, has, sum_chars, retained, make_artifact_store, read, write, close, sweep,
  sweep_expired, remove_oldest, remove, make_page, touch,
}
use kiro_fabric.Artifacts.Invariant.{IsValid}
use kiro_fabric.Artifacts.History.{Reach, here, written, closed_by, Reach-make_artifact_store}
use kiro_fabric.Artifacts.Served.{Served, read-Served}
use kiro_fabric.Artifacts.Writes.{Obeys, write-keeps_protected}
use kiro_fabric.Artifacts.Succeeds.{Succeeds, write-Succeeds}
use kiro_fabric.Artifacts.Closing.{Closes, close-Closes}

abbrev never : Text → Text → Bool
never a b = false

-- An id with a last digit.
abbrev id_with : ℕ → Text
id_with c = 107 ∷ 97 ∷ 95 ∷ (replicate 47 48 ++ c ∷ [])

abbrev first_id : Text
first_id = id_with 49

abbrev second_id : Text
second_id = id_with 50

abbrev third_id : Text
third_id = id_with 51

abbrev bounds : ArtifactBounds
bounds = record {
  max_artifacts = some 2;
  max_artifact_chars = some 4;
  max_total_chars = some 6;
  ttl_ms = some 10;
}

abbrev empty_store : ArtifactStore
empty_store = record {
  entries = [];
  failed_writes = [];
  uncertain_closes = 0;
  has_root = true;
  max_artifacts = 2;
  max_artifact_chars = 4;
  max_total_chars = 6;
  ttl_ms = 10;
  total_chars = 0;
  is_closed = false;
}

abbrev entry_of : Text → Text → ℕ → StoredArtifact
entry_of id content at = record { id = id; content = content; last_read_at = at; has_file = true }

abbrev two_entries : ArtifactStore
two_entries = record empty_store {
  entries =
      entry_of first_id (97 ∷ 0xd83d ∷ 0xde00 ∷ []) 5 ∷ entry_of second_id (98 ∷ 99 ∷ []) 6 ∷ [];
  total_chars = 5;
}

abbrev good_disk : Disk
good_disk = record {
  is_guarded = true;
  is_sweep_guarded = true;
  removes = λ id. removed;
  removes_residue = λ id. removed;
  creates = created;
}

abbrev bad_disk : Disk
bad_disk = record good_disk { removes = λ id. refused; creates = fails true 1 }

two_entries-IsValid : IsValid two_entries
unfolding sum_chars find same_text
two_entries-IsValid = record {
  few = omega arith;
  counted = refl;
  within = omega arith;
  small = (omega arith, (omega arith, tt));
  distinct = (refl, (refl, tt));
}

made : make_artifact_store bounds true ≡ ok empty_store
unfolding make_artifact_store
made = refl

unused : find first_id empty_store.entries ≡ none
unfolding find
unused = refl

history :
    Reach never empty_store
      (close bad_disk (write never good_disk 1 1 first_id (97 ∷ 98 ∷ []) [] empty_store).0).0
history = closed_by bad_disk (written good_disk 1 1 first_id (97 ∷ 98 ∷ []) [] unused here)

Reach-make_artifact_store_example :
    IsValid (close bad_disk (write never good_disk 1 1 first_id (97 ∷ 98 ∷ []) [] empty_store).0).0
Reach-make_artifact_store_example =
    Reach-make_artifact_store never bounds true empty_store
      (close bad_disk (write never good_disk 1 1 first_id (97 ∷ 98 ∷ []) [] empty_store).0).0 made
      history

first_found :
    find first_id two_entries.entries ≡ some (entry_of first_id (97 ∷ 0xd83d ∷ 0xde00 ∷ []) 5)
unfolding find same_text
first_found = refl

first_held : has first_id (first_id ∷ []) ≡ true
unfolding has same_text
first_held = refl

write-keeps_protected_example :
    find first_id
      (write never good_disk 8 9 third_id (100 ∷ []) (first_id ∷ []) two_entries).0.entries
    ≡ some (entry_of first_id (97 ∷ 0xd83d ∷ 0xde00 ∷ []) 5)
write-keeps_protected_example =
    write-keeps_protected never good_disk 8 9 third_id (100 ∷ []) first_id (first_id ∷ [])
      (entry_of first_id (97 ∷ 0xd83d ∷ 0xde00 ∷ []) 5) two_entries two_entries-IsValid first_found
      first_held (omega arith)

good_disk-Obeys : Obeys good_disk
good_disk-Obeys = record {
  guarded = refl;
  sweep_guarded = refl;
  removes = λ id. refl;
  creates = refl;
}

third_unused : find third_id two_entries.entries ≡ none
unfolding find same_text
third_unused = refl

retained_first :
    retained never (first_id ∷ []) two_entries.entries
    ≡ entry_of first_id (97 ∷ 0xd83d ∷ 0xde00 ∷ []) 5 ∷ []
unfolding retained has same_text
retained_first = refl

retained_size : sum_chars (retained never (first_id ∷ []) two_entries.entries) ≡ 3
unfolding sum_chars retained has same_text
retained_size = refl

write-Succeeds_example :
    Succeeds never 9 third_id
      (100 ∷ [])
      (write never good_disk 8 9 third_id (100 ∷ []) (first_id ∷ []) two_entries)
write-Succeeds_example =
    write-Succeeds never good_disk 8 9 third_id (100 ∷ []) (first_id ∷ []) two_entries
      good_disk-Obeys two_entries-IsValid refl refl refl (omega arith) third_unused
      (omega (arith, ap length retained_first)) (omega (arith, retained_size))

abbrev first_page : ArtifactPage never
first_page = record {
  text = 97 ∷ [];
  offset = 0;
  next_offset = 1;
  total_chars = 3;
  is_done = false;
}

first_read : (read never good_disk 8 9 first_id (some 0) (some 2) two_entries).1 ≡ ok first_page
unfolding read sweep sweep_expired remove_oldest remove make_page find same_text touch
first_read = refl

read-Served_example : Served never 8 first_id 0 2 two_entries first_page
read-Served_example =
    read-Served never good_disk 8 9 first_id 0 2 two_entries first_page two_entries-IsValid
      first_read

close-Closes_example : Closes bad_disk two_entries (close bad_disk two_entries)
close-Closes_example = close-Closes bad_disk two_entries two_entries-IsValid tt refl
