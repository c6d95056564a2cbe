-- ===== src/Notes/Forest.antt =====
-- The tree of notes has no cycle, and `getDescendantIds` visits it.
use goal_slot_api.Base.{
  ℕ, zero, suc, ◌+◌, ◌≤◌, ◌<◌, ◌≡◌, refl, subst, Bool, true, false, ◌||◌, inl, inr, none, some,
  List, [], ◌∷◌, ◌++◌, String, str_eq, arith, eq_iff, eq_refl, filter, All, All-map, All-append,
  Memᴰ, Bool-cases, Option-cases,
}
use goal_slot_api.Notes.Store.{Note, contains, child_of, ids_of, descendants_from}

-- A parent has a lower rank than its child.
abbrev pub Below : (String → ℕ) → Note → Type 0
Below rank n = elim n.parent_id [ none ↦ Unit | some p ↦ rank p < rank n.id ]

-- There are ranks below `height` that fall from each note to its parent: no note lies above itself,
-- and no note lies deeper than `height`.
pub record IsForest (height : ℕ) (notes : List Note) : Type 0 where
  pub rank : String → ℕ
  pub bounded : All (λ (n : Note). rank n.id < height) notes
  pub below : All (Below rank) notes
  pub named : All (λ (n : Note). str_eq n.id "" ≡ false) notes

contains-append :
    (xs ys : List String) (i : String) → contains (xs ++ ys) i ≡ (contains xs i || contains ys i)
contains-append [] ys i = refl
contains-append (x ∷ xs) ys i = ground (arith, contains-append xs ys i)

pub contains-ids_of :
    (p : Note → Bool) (ns : List Note) (n : Note)
    → Memᴰ n ns
    → p n ≡ true
    → contains (ids_of (filter p ns)) n.id ≡ true
contains-ids_of p [] n m h = elim m [ ]
contains-ids_of p (x ∷ xs) n (Memᴰ.head e) h = rw (← e, h, eq_refl n.id) refl
contains-ids_of p (x ∷ xs) n (Memᴰ.tail m) h = elim (Bool-cases (p x)) [
  | inl keep ↦ let rest = contains-ids_of p xs n m h in rw keep (ground arith)
  | inr drop ↦ rw drop (contains-ids_of p xs n m h)
]

-- The rank of what the list holds.
pub rank_of_contained :
    (rank : String → ℕ) (k : ℕ) (ids : List String) (i : String)
    → All (λ j. k ≤ rank j) ids
    → contains ids i ≡ true
    → k ≤ rank i
rank_of_contained rank k [] i h c = absurd (ground arith)
rank_of_contained rank k (j ∷ js) i h c = elim (Bool-cases (str_eq j i)) [
  | inl same ↦ let e : j ≡ i = (eq_iff j i).0 same in rw (← e) h.0
  | inr other ↦ rank_of_contained rank k js i h.1 (ground arith)
]

deeper :
    (rank : String → ℕ) (k : ℕ) (frontier : List String) (n : Note)
    → All (λ j. k ≤ rank j) frontier
    → Below rank n
    → child_of frontier n ≡ true
    → suc k ≤ rank n.id
deeper rank k frontier n h b c = elim (Option-cases n.parent_id) [
  | inl root ↦ let c' : false ≡ true = rw root at c in cc
  | inr (p, has) ↦
      let b' : rank p < rank n.id = rw has at b in
      let c' : contains frontier p ≡ true = rw has at c in
      omega (arith, rank_of_contained rank k frontier p h c')
]

-- The children of a level lie deeper than it.
children_deeper :
    (rank : String → ℕ) (k : ℕ) (frontier : List String) (ns : List Note)
    → All (λ j. k ≤ rank j) frontier
    → All (Below rank) ns
    → All (λ j. suc k ≤ rank j) (ids_of (filter (child_of frontier) ns))
children_deeper rank k frontier [] h b = tt
children_deeper rank k frontier (n ∷ ns) h b =
    let rest = children_deeper rank k frontier ns h b.1 in
    elim (Bool-cases (child_of frontier n)) [
      | inl child ↦ rw child (deeper rank k frontier n h b.0 child, rest)
      | inr other ↦ rw other rest
    ]

children_bounded :
    (rank : String → ℕ) (height : ℕ) (p : Note → Bool) (ns : List Note)
    → All (λ (n : Note). rank n.id < height) ns
    → All (λ j. rank j < height) (ids_of (filter p ns))
children_bounded rank height p [] b = tt
children_bounded rank height p (n ∷ ns) b = elim (Bool-cases (p n)) [
  | inl keep ↦ rw keep (b.0, children_bounded rank height p ns b.1)
  | inr drop ↦ rw drop (children_bounded rank height p ns b.1)
]

child_of-append :
    (xs ys : List String) (n : Note) → child_of (xs ++ ys) n ≡ (child_of xs n || child_of ys n)
child_of-append xs ys n = elim (Option-cases n.parent_id) [
  | inl root ↦ rw root refl
  | inr (p, has) ↦ rw has (contains-append xs ys p)
]

-- What `ds` is to a level: the notes of `ds` lie below it, and no child of either is missing.
pub record Visited (rank : String → ℕ) (k : ℕ) (notes : List Note) (frontier ds : List String)
    : Type 0 where
  pub lower : All (λ d. k < rank d) ds
  pub closed :
      (n : Note) → Memᴰ n notes → child_of (frontier ++ ds) n ≡ true → contains ds n.id ≡ true

All_lt-weaken :
    (rank : String → ℕ) (k : ℕ) (ds : List String)
    → All (λ d. suc k < rank d) ds
    → All (λ d. k < rank d) ds
All_lt-weaken rank k ds h = All-map {P = λ d. suc k < rank d} (λ d p. omega arith) ds h

Visited-nothing :
    (rank : String → ℕ) (k : ℕ) (notes : List Note) (frontier : List String)
    → ids_of (filter (child_of frontier) notes) ≡ []
    → Visited rank k notes frontier []
Visited-nothing rank k notes frontier e = record {
  lower = tt;
  closed = λ n m c.
      let none_left =
        contains-ids_of (child_of frontier) notes n m
          (let both = child_of-append frontier [] n in ground arith) in
      subst (λ xs. contains xs n.id ≡ true) e none_left;
}

Visited-level :
    (rank : String → ℕ) (k : ℕ) (notes : List Note) (frontier cs rest : List String)
    → All (λ j. suc k ≤ rank j) cs
    → ids_of (filter (child_of frontier) notes) ≡ cs
    → Visited rank (suc k) notes cs rest
    → Visited rank k notes frontier (cs ++ rest)
Visited-level rank k notes frontier cs rest h e v = record {
  lower =
      All-append (λ d. k < rank d) cs rest
        (All-map {P = λ j. suc k ≤ rank j} (λ d p. omega arith) cs h)
        (All_lt-weaken rank k rest v.lower);
  closed = λ n m c.
      let split = child_of-append frontier (cs ++ rest) n in
      elim (Bool-cases (child_of frontier n)) [
        | inl near ↦
            let here : contains cs n.id ≡ true =
              subst (λ xs. contains xs n.id ≡ true) e
                (contains-ids_of (child_of frontier) notes n m near) in
            rw (contains-append cs rest n.id, here) refl
        | inr far ↦
            let there = v.closed n m (ground arith) in
            rw (contains-append cs rest n.id, there) (ground arith)
      ];
}

-- The loop ends with the fuel of the levels that lie below its level, and visits them all.
pub visits :
    (fuel : ℕ) (height : ℕ) (notes : List Note) (forest : IsForest height notes) (k : ℕ)
    (c : String) (cs : List String)
    → forest.rank c < height
    → All (λ j. k ≤ forest.rank j) (c ∷ cs)
    → height < k + fuel
    → (ds : List String) × (descendants_from fuel notes (c ∷ cs) ≡ some ds)
      × Visited forest.rank k notes (c ∷ cs) ds
unfolding descendants_from
visits zero height notes forest k c cs b h le = absurd (omega (arith, h.0))
visits (suc fuel) height notes forest k c cs b h le =
    level (ids_of (filter (child_of (c ∷ cs)) notes)) refl
      (children_deeper forest.rank k (c ∷ cs) notes h forest.below)
      (children_bounded forest.rank height (child_of (c ∷ cs)) notes forest.bounded)
      (λ c' cs' b' h'. visits fuel height notes forest (suc k) c' cs' b' h' (omega arith))
  where
    level :
        (next : List String)
        → ids_of (filter (child_of (c ∷ cs)) notes) ≡ next
        → All (λ j. suc k ≤ forest.rank j) next
        → All (λ j. forest.rank j < height) next
        → ((c' : String) (cs' : List String)
            → forest.rank c' < height
            → All (λ j. suc k ≤ forest.rank j) (c' ∷ cs')
            → (ds : List String) × (descendants_from fuel notes (c' ∷ cs') ≡ some ds)
              × Visited forest.rank (suc k) notes (c' ∷ cs') ds)
        → (ds : List String) × (descendants_from (suc fuel) notes (c ∷ cs) ≡ some ds)
          × Visited forest.rank k notes (c ∷ cs) ds
    level [] e deep small go =
        ([], rw (e, descendants_from) refl, Visited-nothing forest.rank k notes (c ∷ cs) e)
    level (x ∷ xs) e deep small go =
        let (rest, found, v) = go x xs small.0 deep in
        (
          (x ∷ xs) ++ rest,
          rw (e, descendants_from, found) refl,
          Visited-level forest.rank k notes (c ∷ cs) (x ∷ xs) rest deep e v,
        )
