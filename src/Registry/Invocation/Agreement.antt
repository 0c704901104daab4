-- ===== src/Registry/Invocation/Agreement.antt =====
-- Every move of src/core/action-registry.ts keeps the calls in flight and the active writes in
-- agreement.
use kiro_fabric.Prelude.{
  ℕ, true, false, ◌==◌, ◌≡◌, ◌≢◌, refl, ◌∙◌, sym, ap, subst, inl, inr, ◌⊎◌, List, ◌∷◌, none, some,
  arith, Bool-cases, ==_iff,
}
use kiro_fabric.Registry.Invocation.{
  ActiveWrite, Flight, is_write_like, is_conflicting, delete_write, find, update, remove,
}
use kiro_fabric.Registry.Invocation.Flights.{
  IsDistinct, find-update, update-IsDistinct, find-remove, remove-IsDistinct, tally, tally-update,
  tally-remove,
}
use kiro_fabric.Registry.Invocation.Writes.{
  find_write, find_write-delete, delete_write-IsExclusive, length-delete, delete_write_absent,
}
use kiro_fabric.Registry.Invocation.Moves.{
  is_dispatched, intent_of, holding, admit, Continues, IsFresh, Move, stays, begins, goes_on,
  prepares, is_admitted, is_dropped, ends, Agrees,
}

Agrees-begins :
    (fs : List Flight) (ws : List ActiveWrite) (f : Flight)
    → find f.id fs ≡ none
    → is_dispatched f.phase ≡ false
    → Agrees fs ws
    → Agrees (f ∷ fs) ws
unfolding find tally
Agrees-begins fs ws f new idle a = record {
  distinct = (new, a.distinct);
  exclusive = a.exclusive;
  held = λ id g e d. a.held id g (ground (arith, e, d, idle)) d;
  apart = λ i j g h e k d d' same.
      a.apart i j g h (ground (arith, e, d, idle)) (ground (arith, k, d', idle)) d d' same;
  counted = ground (arith, a.counted, idle);
}

-- Where a call of the updated list comes from.
origin :
    (fs : List Flight) (f g : Flight) (id : ℕ) (h : Flight)
    → find g.id fs ≡ some f
    → Continues f g
    → find id (update g fs) ≡ some h
    → (h' : Flight) × (find id fs ≡ some h') × Continues h' h
origin fs f g id h e c k = elim (Bool-cases (g.id == id)) [
  | inl here ↦
      let same : g ≡ h = ground (arith, find-update g fs f id e, k, here) in
      let at : g.id ≡ id = (==_iff g.id id).0 here in
      (f, subst (λ (n : ℕ). find n fs ≡ some f) at e, subst (Continues f) same c)
  | inr there ↦ (
    h,
    ground (arith, find-update g fs f id e, k, there),
    record {
      same_id = refl;
      same_call = refl;
      same_ref = refl;
      same_resources = refl;
      same_action = refl;
      same_stage = refl;
    },
  )
]

intent_of-Continues : (f g : Flight) → Continues f g → intent_of g ≡ intent_of f
intent_of-Continues f g c = rw (c.same_call, c.same_ref, c.same_resources, c.same_action)

Agrees-goes_on :
    (fs : List Flight) (ws : List ActiveWrite) (f g : Flight)
    → find g.id fs ≡ some f
    → Continues f g
    → Agrees fs ws
    → Agrees (update g fs) ws
Agrees-goes_on fs ws f g e c a = record {
  distinct = update-IsDistinct g fs f e a.distinct;
  exclusive = a.exclusive;
  held = λ id h k d.
      let (h', k', s) = origin fs f g id h e c k in
      rw (s.same_call) (a.held id h' k' (sym s.same_stage ∙ d)) ∙ sym (intent_of-Continues h' h s);
  apart = λ i j x y k l d d' same.
      let (x', k', s) = origin fs f g i x e c k in
      let (y', l', t) = origin fs f g j y e c l in
      a.apart i j x' y' k' l' (sym s.same_stage ∙ d) (sym t.same_stage ∙ d')
        (sym s.same_call ∙ same ∙ t.same_call);
  counted = omega (arith, a.counted, tally-update holding g fs f e, measure);
}
  where
    measure : holding g ≡ holding f
    measure = rw (c.same_stage, c.same_action)

-- A dispatched call of a list in which an idle call went on or was dropped.
Agrees-prepares :
    (fs : List Flight) (ws : List ActiveWrite) (f g : Flight)
    → find g.id fs ≡ some f
    → is_dispatched f.phase ≡ false
    → is_dispatched g.phase ≡ false
    → Agrees fs ws
    → Agrees (update g fs) ws
Agrees-prepares fs ws f g e idle idle' a = record {
  distinct = update-IsDistinct g fs f e a.distinct;
  exclusive = a.exclusive;
  held = λ id h k d. a.held id h (old id h k d) d;
  apart = λ i j x y k l d d' same. a.apart i j x y (old i x k d) (old j y l d') d d' same;
  counted = ground (arith, a.counted, tally-update holding g fs f e, idle, idle');
}
  where
    old :
        (id : ℕ) (h : Flight)
        → find id (update g fs) ≡ some h
        → is_dispatched h.phase ≡ true
        → find id fs ≡ some h
    old id h k d = ground (arith, find-update g fs f id e, k, d, idle')

removed :
    (fs : List Flight) (j id : ℕ) (h : Flight)
    → IsDistinct fs
    → find id (remove j fs) ≡ some h
    → (find id fs ≡ some h) × (j ≢ id)
removed fs j id h d k = ground (arith, find-remove j fs id d, k)

Agrees-is_dropped :
    (fs : List Flight) (ws : List ActiveWrite) (f : Flight)
    → find f.id fs ≡ some f
    → is_dispatched f.phase ≡ false
    → Agrees fs ws
    → Agrees (remove f.id fs) ws
Agrees-is_dropped fs ws f e idle a = record {
  distinct = remove-IsDistinct f.id fs a.distinct;
  exclusive = a.exclusive;
  held = λ id h k d. a.held id h (removed fs f.id id h a.distinct k).0 d;
  apart = λ i j x y k l d d' same.
      a.apart i j x y (removed fs f.id i x a.distinct k).0 (removed fs f.id j y a.distinct l).0 d d'
        same;
  counted = ground (arith, a.counted, tally-remove holding f.id fs f e, idle);
}

Agrees-ends :
    (fs : List Flight) (ws : List ActiveWrite) (f : Flight)
    → find f.id fs ≡ some f
    → is_dispatched f.phase ≡ true
    → Agrees fs ws
    → Agrees (remove f.id fs) (delete_write f.call_id ws)
Agrees-ends fs ws f e busy a = record {
  distinct = remove-IsDistinct f.id fs a.distinct;
  exclusive = delete_write-IsExclusive f.call_id ws a.exclusive;
  held = λ id h k d.
      let (k', other) = removed fs f.id id h a.distinct k in
      let different : f.call_id ≢ h.call_id =
        λ same. other (a.apart f.id id f h e k' busy d same) in
      ground
        (arith, find_write-delete f.call_id ws h.call_id a.exclusive, different, a.held id h k' d);
  apart = λ i j x y k l d d' same.
      a.apart i j x y (removed fs f.id i x a.distinct k).0 (removed fs f.id j y a.distinct l).0 d d'
        same;
  counted = elim (Bool-cases (is_write_like f.action)) [
    | inl w ↦ ground (
      arith,
      a.counted,
      tally-remove holding f.id fs f e,
      busy,
      w,
      a.held f.id f e busy,
      length-delete f.call_id ws
          (record { call_id = f.call_id; ref = f.ref; resources = f.resources }),
    )
    | inr w ↦ ground (
      arith,
      a.counted,
      tally-remove holding f.id fs f e,
      busy,
      w,
      a.held f.id f e busy,
      delete_write_absent f.call_id ws,
    )
  ];
}

updated :
    (fs : List Flight) (f g : Flight) (id : ℕ) (h : Flight)
    → find g.id fs ≡ some f
    → find id (update g fs) ≡ some h
    → ((g.id ≡ id) × (g ≡ h)) ⊎ (find id fs ≡ some h)
updated fs f g id h e k = elim (Bool-cases (g.id == id)) [
  | inl here ↦ inl ((==_iff g.id id).0 here, ground (arith, find-update g fs f id e, k, here))
  | inr there ↦ inr (ground (arith, find-update g fs f id e, k, there))
]

find_write-admit_self :
    (ws : List ActiveWrite) (g : Flight)
    → find_write g.call_id ws ≡ none
    → find_write g.call_id (admit (intent_of g) ws) ≡ intent_of g
unfolding find_write
find_write-admit_self ws g h = ground (arith, h)

find_write-admit_other :
    (ws : List ActiveWrite) (g : Flight) (call_id : ℕ)
    → call_id ≢ g.call_id
    → find_write call_id (admit (intent_of g) ws) ≡ find_write call_id ws
unfolding find_write
find_write-admit_other ws g call_id h = ground (arith, h)

Agrees-is_admitted :
    (fs : List Flight) (ws : List ActiveWrite) (f g : Flight)
    → find g.id fs ≡ some f
    → is_dispatched f.phase ≡ false
    → is_dispatched g.phase ≡ true
    → IsFresh fs ws g.call_id
    → (is_write_like g.action ≡ true → is_conflicting g.resources ws ≡ false)
    → Agrees fs ws
    → Agrees (update g fs) (admit (intent_of g) ws)
unfolding find_write
Agrees-is_admitted fs ws f g e idle busy fresh free a = record {
  distinct = update-IsDistinct g fs f e a.distinct;
  exclusive = ground (arith, a.exclusive, fresh.unlisted, free);
  held = λ id h k d. elim (updated fs f g id h e k) [
    | inl (at, same) ↦
        subst (λ x. find_write x.call_id (admit (intent_of g) ws) ≡ intent_of x) same
          (find_write-admit_self ws g fresh.unlisted)
    | inr old ↦ find_write-admit_other ws g h.call_id (fresh.unused id h old d) ∙ a.held id h old d
  ];
  apart = λ i j x y k l d d' same. elim (updated fs f g i x e k) [
    | inl (at, is_g) ↦ elim (updated fs f g j y e l) [
      | inl (at', is_g') ↦ sym at ∙ at'
      | inr old ↦
          absurd (fresh.unused j y old d' (sym same ∙ ap (λ (z : Flight). z.call_id) (sym is_g)))
    ]
    | inr old ↦ elim (updated fs f g j y e l) [
      | inl (at', is_g') ↦
          absurd (fresh.unused i x old d (same ∙ ap (λ (z : Flight). z.call_id) (sym is_g')))
      | inr old' ↦ a.apart i j x y old old' d d' same
    ]
  ];
  counted = ground (arith, a.counted, tally-update holding g fs f e, idle, busy);
}

-- Every move keeps the agreement.
pub Move-Agrees :
    {fs : List Flight} {ws : List ActiveWrite} {fs' : List Flight} {ws' : List ActiveWrite}
    → Move fs ws fs' ws'
    → Agrees fs ws
    → Agrees fs' ws'
Move-Agrees stays a = a
Move-Agrees {fs} {ws} (begins f new idle) a = Agrees-begins fs ws f new idle a
Move-Agrees {fs} {ws} (goes_on f g e c) a = Agrees-goes_on fs ws f g e c a
Move-Agrees {fs} {ws} (prepares f g e idle idle') a = Agrees-prepares fs ws f g e idle idle' a
Move-Agrees {fs} {ws} (is_admitted f g e idle busy fresh free) a =
    Agrees-is_admitted fs ws f g e idle busy fresh free a
Move-Agrees {fs} {ws} (is_dropped f e idle) a = Agrees-is_dropped fs ws f e idle a
Move-Agrees {fs} {ws} (ends f e busy) a = Agrees-ends fs ws f e busy a
