-- ===== src/Restapi/Sorting/Smallest.antt =====
-- What sortAndLimit keeps of its input.
use goapptrace.Base.{
  panic_ne_ok, ok-injective, Outcome-cases, ℕ, suc, min, ◌+◌, ◌≤◌, ◌<◌, ◌≡◌, inl, inr, refl, sym,
  ap, ◌∙◌, arith, Bool, true, false, List, [], ◌∷◌, ◌++◌, ok, Bool-cases, if◌then◌else◌, take, drop,
  length, All, leb, length-take, drop_beyond, take-append-drop,
}
use goapptrace.Base.Int.{ℤ, pos, ltb_ℤ, leb_ℤ}
use goapptrace.Types.{FuncLog}
use goapptrace.Restapi.Sorting.{
  Less, Sorts, update, update_items, kept_items, sort_with, sort_and_limit,
}

abbrev pub count : (FuncLog → Bool) → List FuncLog → ℕ
count p [] = 0
count p (f ∷ fs) = (if p f then 1 else 0) + count p fs

-- No item is before one that the order puts before it.
abbrev pub IsSorted : Less → List FuncLog → Type 0
IsSorted less [] = Unit {0}
IsSorted less (f ∷ fs) = All (λ g. less g f ≡ false) fs × IsSorted less fs

-- What the documentation of container/heap and sort says: the items are reordered, no item of a heap comes
-- before its first one in the heap's order, Fix makes a heap of one whose first item was replaced,
-- and sort.Slice sorts.
pub record IsSorts (lib : Sorts) (less : Less) : Type 1 where
  pub IsHeap : List FuncLog → Type 0
  pub count-init :
      (p : FuncLog → Bool) (fs : List FuncLog) → count p (lib.init less fs) ≡ count p fs
  pub init-IsHeap : (fs : List FuncLog) → IsHeap (lib.init less fs)
  pub count-fix :
      (p : FuncLog → Bool) (f : FuncLog) (fs : List FuncLog)
      → count p (lib.fix less (f ∷ fs)) ≡ count p (f ∷ fs)
  pub fix-IsHeap :
      (f top : FuncLog) (fs : List FuncLog) → IsHeap (top ∷ fs) → IsHeap (lib.fix less (f ∷ fs))
  pub heap_top :
      (top : FuncLog) (fs : List FuncLog) → IsHeap (top ∷ fs) → All (λ f. less top f ≡ false) fs
  pub count-sort :
      (p : FuncLog → Bool) (fs : List FuncLog) → count p (lib.sort less fs) ≡ count p fs
  pub sort-IsSorted : (fs : List FuncLog) → IsSorted less (lib.sort less fs)

length-count : (fs : List FuncLog) → count (λ f. true) fs ≡ length fs
length-count [] = refl
length-count (f ∷ fs) = omega (arith, length-count fs)

count-append :
    (p : FuncLog → Bool) (fs gs : List FuncLog) → count p (fs ++ gs) ≡ count p fs + count p gs
count-append p [] gs = omega arith
count-append p (f ∷ fs) gs = omega (arith, count-append p fs gs)

-- What is kept are items of the input: none occurs more often than there.
module _ (lib : Sorts) (less : Less) (laws : IsSorts lib less) (p : FuncLog → Bool) where
  count-update :
      (evt : FuncLog) (items items' : List FuncLog)
      → update lib less evt items ≡ ok items'
      → count p items' ≤ count p (evt ∷ items)
  count-update evt [] items' e = absurd (panic_ne_ok e)
  count-update evt (top ∷ items) items' e = elim (Bool-cases (less evt top)) [
    | inl smaller ↦
        rw (← ok-injective (rw smaller at e)) (omega (arith, laws.count-fix p evt items))
    | inr larger ↦ rw (← ok-injective (rw larger at e)) (omega arith)
  ]

  count-update_items :
      (evts items items' : List FuncLog)
      → update_items lib less evts items ≡ ok items'
      → count p items' ≤ count p evts + count p items
  unfolding update_items
  count-update_items [] items items' e = rw (← ok-injective e) (omega arith)
  count-update_items (evt ∷ evts) items items' e =
      elim (Outcome-cases (update lib less evt items)) [
        | inl stuck ↦ absurd (panic_ne_ok (rw (update_items, stuck) at e))
        | inr (next, e1) ↦ omega (
          arith,
          count-update evt items next e1,
          count-update_items evts next items' (rw (update_items, e1) at e),
        )
      ]

  count-kept_items :
      (offset n : ℕ) (evts items : List FuncLog)
      → kept_items lib less offset (pos (suc n)) evts ≡ ok items
      → count p items ≤ count p evts
  unfolding kept_items
  count-kept_items offset n evts items e =
      let k = offset + suc n in
      omega (
        arith,
        count-update_items (drop k evts) (lib.init less (take k evts)) items e,
        laws.count-init p (take k evts),
        count-append p (take k evts) (drop k evts),
        ap (count p) (take-append-drop k evts),
      )

-- The comparison is that of a number.
abbrev pub Ranks : Less → (FuncLog → ℤ) → Type 0
Ranks less rank = (f g : FuncLog) → less f g ≡ ltb_ℤ (rank f) (rank g)

sorted_from_lem :
    (offset : ℕ) (items : List FuncLog)
    → (if leb (length items) offset then ok [] else ok (drop offset items)) ≡ ok (drop offset items)
sorted_from_lem offset items = elim (Bool-cases (leb (length items) offset)) [
  | inl e ↦ rw (e, drop_beyond offset items (ground arith)) refl
  | inr e ↦ rw e refl
]

module _ (lib : Sorts) (less : Less) (rank : FuncLog → ℤ) (ranks : Ranks less rank)
    (laws : IsSorts lib less) where
  -- How many have a rank of at most `t`.
  abbrev pub up_to : ℤ → List FuncLog → ℕ
  up_to t fs = count (λ f. leb_ℤ (rank f) t) fs

  up_to-le : (t : ℤ) (fs : List FuncLog) → up_to t fs ≤ length fs
  up_to-le t [] = omega arith
  up_to-le t (f ∷ fs) = elim (Bool-cases (leb_ℤ (rank f) t)) [
    | inl e ↦ rw e (omega (arith, up_to-le t fs))
    | inr e ↦ rw e (omega (arith, up_to-le t fs))
  ]

  -- Where the first of a heap counts, all do.
  up_to-all :
      (t : ℤ) (top : FuncLog) (fs : List FuncLog)
      → All (λ f. less top f ≡ false) fs
      → leb_ℤ (rank top) t ≡ true
      → up_to t fs ≡ length fs
  up_to-all t top [] all h = refl
  up_to-all t top (f ∷ fs) (here, all) h =
      let below : leb_ℤ (rank f) t ≡ true = ground (arith, ranks top f) in
      rw below (omega (arith, up_to-all t top fs all h))

  -- The items are the `k` smallest of those that `seen` counts.
  Keeps : ℕ → (ℤ → ℕ) → List FuncLog → Type 0
  Keeps k seen items =
      laws.IsHeap items × (length items ≡ k) × ((t : ℤ) → up_to t items ≡ min (seen t) k)

  abbrev with_item : FuncLog → (ℤ → ℕ) → ℤ → ℕ
  with_item f seen t = (if leb_ℤ (rank f) t then 1 else 0) + seen t

  replaced_count :
      (k c : ℕ) (evt top : FuncLog) (items : List FuncLog) (t : ℤ)
      → All (λ f. less top f ≡ false) items
      → suc (length items) ≡ k
      → less evt top ≡ true
      → up_to t (top ∷ items) ≡ min c k
      → up_to t (evt ∷ items) ≡ min ((if leb_ℤ (rank evt) t then 1 else 0) + c) k
  replaced_count k c evt top items t all size smaller h = elim (Bool-cases (leb_ℤ (rank top) t)) [
    | inl e ↦
        let full : up_to t items ≡ length items = up_to-all t top items all e in
        let counted : leb_ℤ (rank evt) t ≡ true = ground (arith, ranks evt top) in
        rw counted (omega (arith, rw e at h))
    | inr e ↦
        let few : up_to t items ≤ length items = up_to-le t items in
        elim (Bool-cases (leb_ℤ (rank evt) t)) [
          | inl e' ↦ rw e' (omega (arith, rw e at h))
          | inr e' ↦ rw e' (omega (arith, rw e at h))
        ]
  ]

  kept_count :
      (k c : ℕ) (evt top : FuncLog) (items : List FuncLog) (t : ℤ)
      → All (λ f. less top f ≡ false) items
      → suc (length items) ≡ k
      → less evt top ≡ false
      → up_to t (top ∷ items) ≡ min c k
      → up_to t (top ∷ items) ≡ min ((if leb_ℤ (rank evt) t then 1 else 0) + c) k
  kept_count k c evt top items t all size larger h = elim (Bool-cases (leb_ℤ (rank evt) t)) [
    | inr e ↦ rw e (omega (arith, h))
    | inl e ↦
        let counted : leb_ℤ (rank top) t ≡ true = ground (arith, ranks evt top) in
        let full : up_to t items ≡ length items = up_to-all t top items all counted in
        rw (e, counted) (omega (arith, rw counted at h))
  ]

  update-Keeps :
      (k : ℕ) (seen : ℤ → ℕ) (evt : FuncLog) (items : List FuncLog)
      → 0 < k
      → Keeps k seen items
      → (items' : List FuncLog) × (update lib less evt items ≡ ok items')
        × Keeps k (with_item evt seen) items'
  unfolding Keeps
  update-Keeps k seen evt [] some_wanted (heap, size, counts) = absurd (omega arith)
  update-Keeps k seen evt (top ∷ items) some_wanted (heap, size, counts) =
      let below = laws.heap_top top items heap in
      elim (Bool-cases (less evt top)) [
        | inl e ↦ (
          lib.fix less (evt ∷ items),
          rw e refl,
          (
            laws.fix-IsHeap evt top items heap,
            sym (length-count (lib.fix less (evt ∷ items)))
                ∙ laws.count-fix (λ f. true) evt items
                ∙ length-count (evt ∷ items)
                ∙ size,
            λ t.
                laws.count-fix (λ f. leb_ℤ (rank f) t) evt items
                ∙ replaced_count k (seen t) evt top items t below size e (counts t),
          ),
        )
        | inr e ↦ (
          top ∷ items,
          rw e refl,
          (heap, size, λ t. kept_count k (seen t) evt top items t below size e (counts t)),
        )
      ]

  update_items-Keeps :
      (k : ℕ) (seen : ℤ → ℕ) (evts items : List FuncLog)
      → 0 < k
      → Keeps k seen items
      → (items' : List FuncLog) × (update_items lib less evts items ≡ ok items')
        × Keeps k (λ t. up_to t evts + seen t) items'
  unfolding update_items Keeps
  update_items-Keeps k seen [] items some_wanted (heap, size, counts) =
      (items, refl, (heap, size, λ t. counts t ∙ ap (λ c. min c k) (omega arith)))
  update_items-Keeps k seen (evt ∷ evts) items some_wanted keeps =
      let (items1, e1, keeps1) = update-Keeps k seen evt items some_wanted keeps in
      let (items2, e2, (heap, size, counts)) =
        update_items-Keeps k (with_item evt seen) evts items1 some_wanted keeps1 in
      (
        items2,
        rw (update_items, e1) e2,
        (heap, size, λ t. counts t ∙ ap (λ c. min c k) (omega arith)),
      )

  -- FillItemsLoop stops with `k` items, or at the end of the input.
  first_items-Keeps :
      (k : ℕ) (evts : List FuncLog)
      → k ≤ length evts
      → Keeps k (λ t. up_to t (take k evts)) (lib.init less (take k evts))
  unfolding Keeps
  first_items-Keeps k evts h =
      let size : length (take k evts) ≡ k = length-take k evts ∙ omega arith in
      (
        laws.init-IsHeap (take k evts),
        sym (length-count (lib.init less (take k evts)))
            ∙ laws.count-init (λ f. true) (take k evts)
            ∙ length-count (take k evts)
            ∙ size,
        λ t.
            laws.count-init (λ f. leb_ℤ (rank f) t) (take k evts)
            ∙ omega (arith, up_to-le t (take k evts)),
      )

  up_to-split :
      (t : ℤ) (k : ℕ) (evts : List FuncLog)
      → up_to t (drop k evts) + up_to t (take k evts) ≡ up_to t evts
  up_to-split t k evts = omega (
    arith,
    count-append (λ f. leb_ℤ (rank f) t) (take k evts) (drop k evts),
    ap (up_to t) (take-append-drop k evts),
  )

  few_counted :
      (t : ℤ) (k : ℕ) (evts : List FuncLog)
      → length evts ≤ k
      → up_to t (take k evts) ≡ min (up_to t evts) k
  few_counted t k evts few =
      let none_left : up_to t (drop k evts) ≡ 0 = ap (up_to t) (drop_beyond k evts few) in
      omega (arith, up_to-split t k evts, up_to-le t evts)

  -- As many of the kept items as of the input have a rank of at most `t`, but at most the wanted number:
  -- these are the smallest of the input.
  kept_items-smallest :
      (offset n : ℕ) (evts : List FuncLog)
      → (items : List FuncLog) × (kept_items lib less offset (pos (suc n)) evts ≡ ok items)
        × ((t : ℤ) → up_to t items ≡ min (up_to t evts) (offset + suc n))
  unfolding kept_items update_items Keeps
  kept_items-smallest offset n evts =
      let k = offset + suc n in
      elim (Bool-cases (leb k (length evts))) [
        | inl e' ↦
            let enough : k ≤ length evts = ground arith in
            let (items, e, (heap, size, counts)) =
              update_items-Keeps k (λ t. up_to t (take k evts)) (drop k evts)
                (lib.init less (take k evts)) (omega arith) (first_items-Keeps k evts enough) in
            (items, e, λ t. counts t ∙ ap (λ c. min c k) (up_to-split t k evts))
        | inr e' ↦
            let few : length evts ≤ k = ground arith in
            (
              lib.init less (take k evts),
              rw (drop_beyond k evts few) refl,
              λ t. laws.count-init (λ f. leb_ℤ (rank f) t) (take k evts) ∙ few_counted t k evts few,
            )
      ]

  -- With a comparison of ranks and a positive number of rows, sortAndLimit does not panic, and sends a
  -- sorted list of items of the input without its first `offset` items; of every rank, that list has as many items as the
  -- input, but at most `offset + rows` up to that rank, so that it is the smallest items of the input.
  pub sort_and_limit-smallest :
      (offset n : ℕ) (evts : List FuncLog)
      → (sent : List FuncLog) × IsSorted less sent
        × ((t : ℤ) → up_to t sent ≡ min (up_to t evts) (offset + suc n))
        × ((p : FuncLog → Bool) → count p sent ≤ count p evts)
        × (sort_and_limit lib (sort_with less) offset (pos (suc n)) evts ≡ ok (drop offset sent))
  unfolding sort_and_limit
  sort_and_limit-smallest offset n evts =
      let (items, e, counts) = kept_items-smallest offset n evts in
      (
        lib.sort less items,
        laws.sort-IsSorted items,
        λ t. laws.count-sort (λ f. leb_ℤ (rank f) t) items ∙ counts t,
        λ p. omega (
          arith,
          laws.count-sort p items,
          count-kept_items lib less laws p offset n evts items e,
        ),
        rw e (sorted_from_lem offset (lib.sort less items)),
      )
