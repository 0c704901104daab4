-- ===== src/ResultStore/Invariant.antt =====
-- The quotas of src/fovea/result-store.ts, and that every operation keeps them.
use kiro_fabric.Prelude.{
  ℕ, zero, suc, ◌+◌, ◌-◌, ◌≤◌, ◌<◌, Bool, ◌||◌, ◌≡◌, refl, sym, subst, ap, ◌⊎◌, inl, inr, List, [],
  ◌∷◌, ◌++◌, none, some, length, length-append, drop, arith, ltb, leb, Bool-cases, ok, err, Text,
}
use kiro_fabric.ResultStore.{
  Stored, ResultStore, ResultOwner, json_budget, max_entries, max_chars, max_text, lookup,
  delete_all, sweep, make_room, put,
}
use kiro_fabric.ResultStore.Keys.{
  total, IsDistinct, survivors, delete_where-survivors, delete_where-chars, total-survivors-le,
  length-survivors-le, lookup-survivors_absent, survivors-IsDistinct, total-append,
  lookup-append_new, append-IsDistinct,
}

-- The character count is that of the retained texts, the quotas hold, and no id occurs twice.
pub record IsValid (s : ResultStore) : Type 0 where
  pub counted : s.chars ≡ total s.entries
  pub within : length s.entries ≤ max_entries
  pub bounded : s.chars ≤ max_chars
  pub distinct : IsDistinct s.entries

pub delete_all-entries :
    (test : Stored → Bool) (s : ResultStore)
    → (delete_all test s).entries ≡ survivors test s.entries
unfolding delete_all
delete_all-entries test s = delete_where-survivors test s.entries s.chars

pub delete_all-IsValid :
    (test : Stored → Bool) (s : ResultStore) → IsValid s → IsValid (delete_all test s)
delete_all-IsValid test s v = record {
  counted = omega (arith, left, ap total kept, v.counted, total-survivors-le test s.entries);
  within = omega (arith, ap length kept, length-survivors-le test s.entries, v.within);
  bounded = omega (arith, left, v.counted, v.bounded, total-survivors-le test s.entries);
  distinct = subst IsDistinct (sym kept) (survivors-IsDistinct test s.entries v.distinct);
}
  where
    kept : (delete_all test s).entries ≡ survivors test s.entries
    kept = delete_all-entries test s

    left : (delete_all test s).chars + total s.entries ≡ s.chars + total (survivors test s.entries)
    left = unfold delete_all in delete_where-chars test s.entries s.chars (omega (arith, v.counted))

-- The loop's test: one more text of `size` characters does not fit.
abbrev pub IsCrowded : List (ℕ × Stored) → ℕ → Type 0
IsCrowded es size = (max_entries ≤ length es) ⊎ (max_chars < total es + size)

-- What the eviction loop of `put` leaves: the oldest entries are gone, as few as make room.
pub record HasRoom (es : List (ℕ × Stored)) (size : ℕ) (kept : List (ℕ × Stored)) (left : ℕ)
    : Type 0 where
  pub evicted : ℕ
  pub suffix : kept ≡ drop evicted es
  pub counted : left ≡ total kept
  pub fewer : suc (length kept) ≤ max_entries
  pub fitting : left + size ≤ max_chars
  pub minimal : (k : ℕ) → k < evicted → IsCrowded (drop k es) size

minimal_step :
    (id : ℕ) (e : Stored) (es : List (ℕ × Stored)) (size n : ℕ)
    → IsCrowded ((id, e) ∷ es) size
    → ((k : ℕ) → k < n → IsCrowded (drop k es) size)
    → (k : ℕ) → k < suc n
    → IsCrowded (drop k ((id, e) ∷ es)) size
minimal_step id e es size n now later zero h = now
minimal_step id e es size n now later (suc k) h = later k (omega arith)

pub make_room-HasRoom :
    (es : List (ℕ × Stored)) (chars size : ℕ)
    → chars ≡ total es
    → size ≤ max_text
    → (kept : List (ℕ × Stored)) × (left : ℕ) × (make_room es chars size ≡ some (kept, left))
      × HasRoom es size kept left
unfolding make_room
make_room-HasRoom [] chars size h fits = (
  [],
  chars,
  ground arith,
  record {
    evicted = 0;
    suffix = refl;
    counted = h;
    fewer = omega arith;
    fitting = omega arith;
    minimal = λ k lt. absurd (omega arith);
  },
)
make_room-HasRoom ((id, e) ∷ rest) chars size h fits =
    elim (Bool-cases (leb max_entries (length ((id, e) ∷ rest)) || ltb max_chars (chars + size))) [
      | inl full ↦
          let (kept, left, run, room) =
            make_room-HasRoom rest (chars - length e.text) size (omega arith) fits in
          (
            kept,
            left,
            rw full run,
            record {
              evicted = suc room.evicted;
              suffix = room.suffix;
              counted = room.counted;
              fewer = room.fewer;
              fitting = room.fitting;
              minimal =
                  minimal_step id e rest size room.evicted (ground (arith, h, full)) room.minimal;
            },
          )
      | inr free ↦ (
        (id, e) ∷ rest,
        chars,
        rw free,
        record {
          evicted = 0;
          suffix = refl;
          counted = h;
          fewer = ground (arith, free);
          fitting = ground (arith, free);
          minimal = λ k lt. absurd (omega arith);
        },
      )
    ]

lookup-drop_absent :
    (n : ℕ) (es : List (ℕ × Stored)) (id : ℕ) → lookup id es ≡ none → lookup id (drop n es) ≡ none
unfolding lookup
lookup-drop_absent zero es id h = h
lookup-drop_absent (suc n) [] id h = refl
lookup-drop_absent (suc n) ((k, e) ∷ es) id h = lookup-drop_absent n es id (ground arith)

drop-IsDistinct : (n : ℕ) (es : List (ℕ × Stored)) → IsDistinct es → IsDistinct (drop n es)
drop-IsDistinct zero es d = d
drop-IsDistinct (suc n) [] d = tt
drop-IsDistinct (suc n) ((k, e) ∷ es) d = drop-IsDistinct n es d.1

-- The entry that `put` makes.
abbrev pub new_entry : ResultStore → ResultOwner → Text → ℕ → Stored
new_entry s owner text now = record { owner = owner; text = text; expires_at = now + s.ttl_ms }

-- What `put` returns: the swept Map without its oldest entries, as few as make room, and with the
-- new one behind them.
pub record Puts (s : ResultStore) (owner : ResultOwner) (text : Text) (id now : ℕ) (t : ResultStore)
    : Type 0 where
  pub kept : List (ℕ × Stored)
  pub left : ℕ
  pub room : HasRoom (sweep s now).entries (length text) kept left
  pub stored : t.entries ≡ kept ++ (id, new_entry s owner text now) ∷ []
  pub counted : t.chars ≡ left + length text
  pub unchanged : t.ttl_ms ≡ s.ttl_ms

pub sweep-IsValid : (s : ResultStore) (now : ℕ) → IsValid s → IsValid (sweep s now)
unfolding sweep
sweep-IsValid s now = delete_all-IsValid (λ e. leb e.expires_at now) s

pub sweep-ttl_ms : (s : ResultStore) (now : ℕ) → (sweep s now).ttl_ms ≡ s.ttl_ms
unfolding sweep delete_all
sweep-ttl_ms s now = refl

-- On a valid store, putting a text of at most 512,000 characters returns: its eviction loop ends,
-- and it removes the oldest unexpired entries only, as few as make room, before it appends the new
-- entry.
pub put-Puts :
    (s : ResultStore) (owner : ResultOwner) (text : Text) (id now : ℕ)
    → IsValid s
    → length text ≤ max_text
    → (t : ResultStore) × (put s owner text id now ≡ some (ok t)) × Puts s owner text id now t
unfolding put
put-Puts s owner text id now v fits =
    let (kept, left, run, room) =
      make_room-HasRoom (sweep s now).entries (sweep s now).chars (length text)
        (sweep-IsValid s now v).counted fits in
    (
      record (sweep s now) {
        entries = kept ++ (id, new_entry s owner text now) ∷ [];
        chars = left + length text;
      },
      ground (arith, run, fits),
      record {
        kept = kept;
        left = left;
        room = room;
        stored = refl;
        counted = refl;
        unchanged = sweep-ttl_ms s now;
      },
    )

pub lookup-sweep_absent :
    (s : ResultStore) (now id : ℕ)
    → lookup id s.entries ≡ none
    → lookup id (sweep s now).entries ≡ none
unfolding sweep
lookup-sweep_absent s now id h =
    rw (delete_all-entries (λ e. leb e.expires_at now) s)
      (lookup-survivors_absent (λ e. leb e.expires_at now) s.entries id h)

Puts-absent :
    {s t : ResultStore} {owner : ResultOwner} {text : Text} {id now : ℕ}
    → lookup id s.entries ≡ none
    → (p : Puts s owner text id now t) → lookup id p.kept ≡ none
Puts-absent {s} {id = id} {now = now} new p =
    rw (p.room.suffix) (lookup-drop_absent p.room.evicted _ id (lookup-sweep_absent s now id new))

pub Puts-IsValid :
    {s t : ResultStore} {owner : ResultOwner} {text : Text} {id now : ℕ}
    → IsValid s
    → lookup id s.entries ≡ none
    → Puts s owner text id now t
    → IsValid t
Puts-IsValid {s} {t} {owner} {text} {id} {now} v new p = record {
  counted = omega (
    arith,
    ap total p.stored,
    total-append p.kept ((id, new_entry s owner text now) ∷ []),
    p.counted,
    p.room.counted,
  );
  within = omega (
    arith,
    ap length p.stored,
    length-append p.kept ((id, new_entry s owner text now) ∷ []),
    p.room.fewer,
  );
  bounded = omega (arith, p.counted, p.room.fitting);
  distinct = subst IsDistinct (sym p.stored) (
      append-IsDistinct p.kept id (new_entry s owner text now) absent (
        subst IsDistinct (sym p.room.suffix)
          (drop-IsDistinct p.room.evicted _ (sweep-IsValid s now v).distinct)));
}
  where
    absent : lookup id p.kept ≡ none
    absent = Puts-absent new p

-- A lookup of the new id finds the new entry.
pub lookup-Puts :
    {s t : ResultStore} {owner : ResultOwner} {text : Text} {id now : ℕ}
    → lookup id s.entries ≡ none
    → Puts s owner text id now t
    → lookup id t.entries ≡ some (new_entry s owner text now)
lookup-Puts {s} {t} {owner} {text} {id} {now} new p = ground (
  arith,
  p.stored,
  lookup-append_new p.kept id id (new_entry s owner text now) (Puts-absent new p),
)

pub put_long :
    (s : ResultStore) (owner : ResultOwner) (text : Text) (id now : ℕ)
    → max_text < length text
    → put s owner text id now ≡ some (err json_budget)
unfolding put
put_long s owner text id now long = ground arith
