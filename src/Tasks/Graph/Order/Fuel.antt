-- ===== src/Tasks/Graph/Order/Fuel.antt =====
-- That `topological_order` of sifter/src/aa_sifter/tasks/graph.py ends: its recursion never lacks fuel.
use aa.Prelude.{
  ℕ, zero, suc, ◌+◌, ◌≤◌, ◌<◌, List, [], ◌∷◌, String, true, false, Option, none, some, length,
  if◌then◌else◌, All, ◌≡◌, refl, ap, ◌∙◌, arith, eq_iff, inl, inr, Bool-cases,
}
use mathlib.Core.Path.{subst}
use aa.Prelude.Text.{◌≟◌, elem}
use aa.Tasks.Task.{Task}
use aa.Tasks.Graph.{TaskGraph, get}
use aa.Tasks.Graph.Order.{
  Order, Visit, reached, cycle, key_error, out_of_fuel, after, visit_all, close, enter, visit, ids,
  topological_order, discard,
}

-- No text stands twice.
abbrev NoTwice : List String → Type 0
NoTwice [] = Unit
NoTwice (x ∷ xs) = (elem x xs ≡ false) × NoTwice xs

without_first : String → List String → List String
without_first x [] = []
without_first x (y ∷ ys) = let rest = without_first x ys in if x ≟ y then ys else y ∷ rest

length-without_first :
    (x : String) (ys : List String)
    → elem x ys ≡ true
    → suc (length (without_first x ys)) ≡ length ys
unfolding without_first
length-without_first x [] h = absurd (cc h)
length-without_first x (y ∷ ys) h = elim (Bool-cases (x ≟ y)) [
  | inl same ↦ rw same refl
  | inr other ↦ rw other (omega (arith, length-without_first x ys (rw other at h)))
]

elem-without_first :
    (x z : String) (ys : List String)
    → (x ≟ z) ≡ false
    → elem z ys ≡ true
    → elem z (without_first x ys) ≡ true
unfolding without_first
elem-without_first x z [] n h = h
elem-without_first x z (y ∷ ys) n h = elim (Bool-cases (x ≟ y)) [
  | inl same ↦ rw same (ground (arith, eq_iff x y, eq_iff x z, eq_iff z y))
  | inr other ↦ rw other (ground (arith, elem-without_first x z ys n))
]

All-without_first :
    (x : String) (xs ys : List String)
    → elem x xs ≡ false
    → All (λ z. elem z ys ≡ true) xs
    → All (λ z. elem z (without_first x ys) ≡ true) xs
All-without_first x [] ys n h = tt
All-without_first x (z ∷ xs) ys n h = (
  elem-without_first x z ys (ground (arith, n)) h.0,
  All-without_first x xs ys (ground (arith, n)) h.1,
)

-- Different members of a list are at most as many as the list has.
length-le :
    (xs ys : List String) → NoTwice xs → All (λ x. elem x ys ≡ true) xs → length xs ≤ length ys
length-le [] ys d h = omega arith
length-le (x ∷ xs) ys d h = omega (
  arith,
  length-without_first x ys h.0,
  length-le xs (without_first x ys) d.1 (All-without_first x xs ys d.0 h.1),
)

discard-absent : (x : String) (xs : List String) → elem x xs ≡ false → discard x xs ≡ xs
unfolding discard
discard-absent x [] n = refl
discard-absent x (y ∷ xs) n = elim (Bool-cases (y ≟ x)) [
  | inl same ↦ absurd (ground (arith, n, same, eq_iff x y, eq_iff y x))
  | inr other ↦ rw other (ap (λ rest. y ∷ rest) (discard-absent x xs (ground (arith, n))))
]

discard-first : (x : String) (xs : List String) → elem x xs ≡ false → discard x (x ∷ xs) ≡ xs
unfolding discard
discard-first x xs n = rw ((eq_iff x x).1 refl) (discard-absent x xs n)

module _ {F : Type 0} where
  -- A visit that does not lack fuel leaves open what was open.
  abbrev Stays : List String → Visit F → Type 0
  Stays temp (reached u) = u.temp ≡ temp
  Stays temp out_of_fuel = ⊥
  Stays temp _ = Unit

  after-Stays :
      (temp left : List String) (v : Visit F) (f : Order F → Visit F)
      → Stays temp v
      → ((u : Order F) → u.temp ≡ temp → Stays left (f u))
      → Stays left (after v f)
  after-Stays temp left (reached u) f h k = k u h
  after-Stays temp left cycle f h k = tt
  after-Stays temp left (key_error e) f h k = tt
  after-Stays temp left out_of_fuel f h k = h

  visit_all-Stays :
      (temp : List String) (f : String → Order F → Visit F) (ds : List String) (s : Order F)
      → ((d : String) (u : Order F) → u.temp ≡ temp → Stays temp (f d u))
      → s.temp ≡ temp
      → Stays temp (visit_all f ds s)
  unfolding visit_all
  visit_all-Stays temp f [] s h e = e
  visit_all-Stays temp f (d ∷ ds) s h e =
      after-Stays temp temp (f d s) (visit_all f ds) (h d s e)
        (λ u k. visit_all-Stays temp f ds u h k)

  pub close-Stays :
      (task_id : String) (t : Task F) (temp : List String) (u : Order F)
      → elem task_id temp ≡ false
      → u.temp ≡ task_id ∷ temp
      → Stays temp (close task_id t u)
  unfolding close
  close-Stays task_id t temp u n e = ap (discard task_id) e ∙ discard-first task_id temp n

  elem-get :
      (g : TaskGraph F) (task_id : String) (t : Task F)
      → get g task_id ≡ some t
      → elem task_id (ids g) ≡ true
  unfolding get
  elem-get [] task_id t e = absurd (cc e)
  elem-get (u ∷ g) task_id t e = elim (Bool-cases (u.id ≟ task_id)) [
    | inl same ↦ ground (arith, eq_iff u.id task_id, eq_iff task_id u.id)
    | inr other ↦ ground (arith, elem-get g task_id t (rw other at e))
  ]

  length-ids : (g : TaskGraph F) → length (ids g) ≡ length g
  length-ids [] = refl
  length-ids (t ∷ g) = omega (arith, length-ids g)

  enter-Stays :
      (f : String → Order F → Visit F) (temp : List String) (task_id : String) (o : Option (Task F))
      (s : Order F)
      → ((t : Task F)
          → o ≡ some t
          → (d : String) (u : Order F) → u.temp ≡ task_id ∷ temp
          → Stays (task_id ∷ temp) (f d u))
      → s.temp ≡ temp
      → elem task_id temp ≡ false
      → Stays temp (enter f task_id o s)
  unfolding enter
  enter-Stays f temp task_id none s h e n = tt
  enter-Stays f temp task_id (some t) s h e n =
      let opened = record s { temp = task_id ∷ s.temp } in
      after-Stays (task_id ∷ temp) temp (visit_all f t.dependencies opened) (close task_id t)
        (visit_all-Stays (task_id ∷ temp) f t.dependencies opened (h t refl)
          (ap (λ rest. task_id ∷ rest) e))
        (λ u k. close-Stays task_id t temp u n k)

  visit-Stays :
      (fuel : ℕ) (g : TaskGraph F) (temp : List String) (task_id : String) (s : Order F)
      → NoTwice temp
      → All (λ x. elem x (ids g) ≡ true) temp
      → length g < fuel + length temp
      → s.temp ≡ temp
      → Stays temp (visit fuel g task_id s)
  unfolding visit
  visit-Stays zero g temp task_id s d h b e =
      absurd (omega (arith, b, length-le temp (ids g) d h, length-ids g))
  visit-Stays (suc fuel) g temp task_id s d h b e = elim (Bool-cases (elem task_id s.visited)) [
    | inl v ↦ rw (v, Stays) e
    | inr v ↦ rw v (elim (Bool-cases (elem task_id s.temp)) [
      | inl open_ ↦ rw (open_, Stays) tt
      | inr closed ↦ rw closed (
          let n : elem task_id temp ≡ false = subst (λ ids. elem task_id ids ≡ false) e closed in
          enter-Stays (visit fuel g) temp task_id (get g task_id) s
            (λ t found d_ u k.
              visit-Stays fuel g (task_id ∷ temp) d_ u (n, d) (elem-get g task_id t found, h)
                (omega (arith, b)) k)
            e n)
    ])
  ]

  -- The end
  abbrev pub Ends : Visit F → Type 0
  Ends out_of_fuel = ⊥
  Ends _ = Unit

  Stays-Ends : (temp : List String) (v : Visit F) → Stays temp v → Ends v
  Stays-Ends temp (reached u) h = tt
  Stays-Ends temp cycle h = tt
  Stays-Ends temp (key_error e) h = tt
  Stays-Ends temp out_of_fuel h = h

  -- Whatever the graph, the recursion of `topological_order` comes to its end: in an order or in one of the two
  -- errors.
  pub topological_order-Ends : (g : TaskGraph F) → Ends (topological_order g)
  unfolding topological_order
  topological_order-Ends g =
      let start : Order F = record { ordered = []; visited = []; temp = [] } in
      Stays-Ends [] (visit_all (visit (suc (length g)) g) (ids g) start) (
        visit_all-Stays [] (visit (suc (length g)) g) (ids g) start
          (λ d u k. visit-Stays (suc (length g)) g [] d u tt tt (omega arith) k) refl)
