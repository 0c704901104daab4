-- ===== src/JsonBudget/Preflight/Walks.antt =====
-- The stack of `preflight` of src/runtime/json-budget.ts visits what a recursive walk visits.
use kiro_fabric.Prelude.{
  ℕ, suc, ◌+◌, Bool, true, false, not, ◌≡◌, refl, sym, ap, ◌∙◌, if◌then◌else◌, List, [], ◌∷◌, ◌++◌,
  Outcome, ok, err, ◌>>=◌, throw_if, arith, Outcome-cases, Bool-cases, inl, inr,
}
use kiro_fabric.JsonBudget.Preflight.{
  Key, Value, null, undefined, unsupported, boolean, string, number, array, object, Members, nil,
  cons, JsonError, accessor, Visited, Item, is_visited, visit, charge, push_members, members_of,
  preflight_loop, rounds_of, rounds_all, nothing_visited, preflight,
}

module _ (max_chars : ℕ) where
  -- The charges of the members, from the last to the first.
  pub charge_all : Members → Visited → Outcome JsonError Visited
  charge_all nil v = ok v
  charge_all (cons key is_data is_enumerable value rest) v = charge_all rest v >>= λ w.
      throw_if (not is_data) accessor >>= λ checked.
      if is_visited key is_enumerable then charge max_chars key w else ok w

  -- A value is visited, its members are charged, and then walked in order.
  mutual
    pub walk : Value → ℕ → Bool → List Key → Visited → Outcome JsonError Visited
    walk (array i p y ks es) depth nested path v =
        visit max_chars (array i p y ks es) depth nested path v >>= λ w.
        charge_all es w >>= λ x. walk_all es depth path x
    walk (object i p q y ms) depth nested path v =
        visit max_chars (object i p q y ms) depth nested path v >>= λ w.
        charge_all ms w >>= λ x. walk_all ms depth path x
    walk null depth nested path v = visit max_chars null depth nested path v
    walk undefined depth nested path v = visit max_chars undefined depth nested path v
    walk unsupported depth nested path v = visit max_chars unsupported depth nested path v
    walk (boolean b) depth nested path v = visit max_chars (boolean b) depth nested path v
    walk (string t) depth nested path v = visit max_chars (string t) depth nested path v
    walk (number f n) depth nested path v = visit max_chars (number f n) depth nested path v

    pub walk_all : Members → ℕ → List Key → Visited → Outcome JsonError Visited
    walk_all nil depth path v = ok v
    walk_all (cons key is_data is_enumerable value rest) depth path v =
        if is_visited key is_enumerable
        then (walk value (depth + 1) true (key ∷ path) v >>= λ w. walk_all rest depth path w)
        else walk_all rest depth path v

  items : Members → ℕ → List Key → List Item
  items nil depth path = []
  items (cons key is_data is_enumerable value rest) depth path =
      if is_visited key is_enumerable
      then (record { value = value; depth = depth + 1; is_nested = true; path = key ∷ path })
        ∷ items rest depth path
      else items rest depth path

  push_members-charge_all :
      (ms : Members) (depth : ℕ) (path : List Key) (v : Visited) (stack : List Item)
      → push_members max_chars ms depth path (v, stack)
        ≡ (charge_all ms v >>= λ w. ok (w, items ms depth path ++ stack))
  unfolding push_members charge_all items
  push_members-charge_all nil depth path v stack = refl
  push_members-charge_all (cons key is_data is_enumerable value rest) depth path v stack =
      let ih = push_members-charge_all rest depth path v stack in
      elim (Outcome-cases (charge_all rest v)) [
        | inr (e, bad) ↦ ground (arith, ih, bad)
        | inl (w, good) ↦ elim (Bool-cases is_data) [
          | inr no_data ↦ ground (arith, ih, good, no_data)
          | inl yes_data ↦ elim (Bool-cases (is_visited key is_enumerable)) [
            | inr skipped ↦ ground (arith, ih, good, yes_data, skipped)
            | inl visited ↦ elim (Outcome-cases (charge max_chars key w)) [
              | inr (e, bad) ↦ ground (arith, ih, good, yes_data, visited, bad)
              | inl (x, fine) ↦ ground (arith, ih, good, yes_data, visited, fine)
            ]
          ]
        ]
      ]

  -- The rounds of a value, and what is left of the stack.
  abbrev LoopsTo : Value → ℕ → Bool → List Key → Type 0
  LoopsTo value depth nested path =
      (v : Visited) (k : ℕ) (stack : List Item)
      → preflight_loop max_chars (rounds_of value + k)
          ((record { value = value; depth = depth; is_nested = nested; path = path }) ∷ stack) v
        ≡ (walk value depth nested path v >>= λ w. preflight_loop max_chars k stack w)

  abbrev LoopsAll : Members → ℕ → List Key → Type 0
  LoopsAll ms depth path =
      (v : Visited) (k : ℕ) (stack : List Item)
      → preflight_loop max_chars (rounds_all ms + k) (items ms depth path ++ stack) v
        ≡ (walk_all ms depth path v >>= λ w. preflight_loop max_chars k stack w)

  bind_assoc :
      {A B C : Type 0} (m : Outcome JsonError A) (f : A → Outcome JsonError B)
      (g : B → Outcome JsonError C)
      → ((m >>= f) >>= g) ≡ (m >>= λ a. f a >>= g)
  bind_assoc (ok a) f g = refl
  bind_assoc (err e) f g = refl

  -- A round for a value with these members.
  round :
      (value : Value) (depth : ℕ) (nested : Bool) (path : List Key)
      → LoopsAll (members_of max_chars value) depth path
      → (v : Visited) (k : ℕ) (stack : List Item)
      → preflight_loop max_chars
          (suc (rounds_all (members_of max_chars value) + k))
          ((record { value = value; depth = depth; is_nested = nested; path = path }) ∷ stack)
          v
        ≡ (visit max_chars value depth nested path v >>= λ w.
            charge_all (members_of max_chars value) w >>= λ x.
            walk_all (members_of max_chars value) depth path x >>= λ y.
            preflight_loop max_chars k stack y)
  unfolding preflight_loop
  round value depth nested path all v k stack =
      elim (Outcome-cases (visit max_chars value depth nested path v)) [
        | inr (e, bad) ↦ rw bad refl
        | inl (w, good) ↦
            let pushed = push_members-charge_all (members_of max_chars value) depth path w stack in
            elim (Outcome-cases (charge_all (members_of max_chars value) w)) [
              | inr (e, bad) ↦ ground (arith, good, pushed, bad)
              | inl (x, fine) ↦ ground (arith, good, pushed, fine, all x k stack)
            ]
      ]

  leaf :
      (value : Value) (depth : ℕ) (nested : Bool) (path : List Key)
      → members_of max_chars value ≡ nil
      → (v : Visited) (k : ℕ) (stack : List Item)
      → preflight_loop max_chars
          (1 + k)
          ((record { value = value; depth = depth; is_nested = nested; path = path }) ∷ stack)
          v
        ≡ (visit max_chars value depth nested path v >>= λ w. preflight_loop max_chars k stack w)
  unfolding preflight_loop push_members
  leaf value depth nested path none_in v k stack =
      let e : 1 + k ≡ suc k = omega arith in
      rw e (elim (Outcome-cases (visit max_chars value depth nested path v)) [
        | inr (x, bad) ↦ rw bad refl
        | inl (w, good) ↦ ground (arith, good, none_in)
      ])

  -- The binds of a round, from the left.
  grouped :
      (m : Outcome JsonError Visited) (ms : Members) (depth : ℕ) (path : List Key) (k : ℕ)
      (stack : List Item)
      → (m >>= λ w. charge_all ms w >>= λ x.
          walk_all ms depth path x >>= λ y. preflight_loop max_chars k stack y)
        ≡ ((m >>= λ w. charge_all ms w >>= λ x. walk_all ms depth path x) >>= λ y.
            preflight_loop max_chars k stack y)
  grouped (err e) ms depth path k stack = refl
  grouped (ok w) ms depth path k stack = sym (
      bind_assoc (charge_all ms w) (λ x. walk_all ms depth path x)
        (λ y. preflight_loop max_chars k stack y))

  then_rest :
      (m : Outcome JsonError Visited) (rest : Members) (depth : ℕ) (path : List Key) (k : ℕ)
      (stack : List Item)
      → LoopsAll rest depth path
      → (m >>= λ w.
          preflight_loop max_chars (rounds_all rest + k) (items rest depth path ++ stack) w)
        ≡ ((m >>= λ w. walk_all rest depth path w) >>= λ y. preflight_loop max_chars k stack y)
  then_rest (err e) rest depth path k stack later = refl
  then_rest (ok w) rest depth path k stack later = later w k stack

  mutual
    unfolding rounds_of rounds_all walk walk_all items

    loops_to :
        (value : Value) (depth : ℕ) (nested : Bool) (path : List Key)
        → LoopsTo value depth nested path
    loops_to null depth nested path v k stack = leaf null depth nested path refl v k stack
    loops_to undefined depth nested path v k stack = leaf undefined depth nested path refl v k stack
    loops_to unsupported depth nested path v k stack =
        leaf unsupported depth nested path refl v k stack
    loops_to (boolean b) depth nested path v k stack =
        leaf (boolean b) depth nested path refl v k stack
    loops_to (string t) depth nested path v k stack =
        leaf (string t) depth nested path refl v k stack
    loops_to (number f n) depth nested path v k stack =
        leaf (number f n) depth nested path refl v k stack
    loops_to (array i p y ks es) depth nested path v k stack =
        let e : suc (rounds_all es) + k ≡ suc (rounds_all es + k) = omega arith in
        let inner = loops_all es depth path in
        rw e (
          round (array i p y ks es) depth nested path inner v k stack
          ∙ grouped (visit max_chars (array i p y ks es) depth nested path v) es depth path k stack)
    loops_to (object i p q y ms) depth nested path v k stack =
        let e : suc (rounds_all ms) + k ≡ suc (rounds_all ms + k) = omega arith in
        let inner = loops_all ms depth path in
        rw e (
          round (object i p q y ms) depth nested path inner v k stack
          ∙ grouped (visit max_chars (object i p q y ms) depth nested path v) ms depth path k stack)

    loops_all : (ms : Members) (depth : ℕ) (path : List Key) → LoopsAll ms depth path
    loops_all nil depth path v k stack = let e : 0 + k ≡ k = omega arith in rw e refl
    loops_all (cons key is_data is_enumerable value rest) depth path v k stack =
        let first = loops_to value (depth + 1) true (key ∷ path) in
        let later = loops_all rest depth path in
        elim (Bool-cases (is_visited key is_enumerable)) [
          | inl visited ↦
              let e : rounds_of value + rounds_all rest + k
                  ≡ rounds_of value + (rounds_all rest + k) =
                omega arith in
              rw (visited, e, first v (rounds_all rest + k) (items rest depth path ++ stack))
                (then_rest (walk value (depth + 1) true (key ∷ path) v) rest depth path k stack
                  later)
          | inr skipped ↦ rw skipped (later v k stack)
        ]

  -- For every graph and limit, the preflight with its stack, given a round for each value that it
  -- can visit, gives the snapshot, or the error, of a recursive walk that visits a value, charges
  -- its members from the last to the first, and then walks them in order.
  pub preflight-walk :
      (root : Value)
      → preflight root max_chars ≡ (walk root 0 false [] nothing_visited >>= λ v. ok v.snapshot)
  unfolding preflight preflight_loop
  preflight-walk root =
      let all = loops_to root 0 false [] nothing_visited 0 [] in
      let e : rounds_of root + 0 ≡ rounds_of root = omega arith in
      ap (λ m. m >>= λ v. ok v.snapshot) (rw e at all)
      ∙ bind_assoc (walk root 0 false [] nothing_visited) (λ w. ok w) (λ v. ok v.snapshot)
