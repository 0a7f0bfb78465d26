-- ===== src/Examples/Sorting.antt =====
-- tracer/restapi/handlers.go: the two latest of three calls, and orders that are sorted by insertion in
-- place of container/heap and sort.
use goapptrace.Base.{
  ◌≤◌, ◌+◌, ◌≡◌, refl, inl, inr, arith, Bool, false, Bool-cases, if◌then◌else◌, List, [], ◌∷◌, All,
  min, ok, drop, ◌>>=◌,
}
use goapptrace.Base.Int.{ℤ, pos, negsuc, leb_ℤ}
use goapptrace.Types.{FuncLog}
use goapptrace.Restapi.Sorting.{
  Less, swapped, Sorts, sort_by_start_time, no_sort_key, no_sort_order, SortFn,
  descending_sort_order, sort_fn, sort_and_limit,
}
use goapptrace.Restapi.Sorting.Smallest.{count, IsSorted, IsSorts}
use goapptrace.Restapi.Sorting.Keys.{
  by_rank, by_mirrored, rank_of, mirrored, sort_and_limit-smallest_of,
}

abbrev insert : Less → FuncLog → List FuncLog → List FuncLog
insert less f [] = f ∷ []
insert less f (g ∷ gs) = let rest = insert less f gs in if less g f then g ∷ rest else f ∷ g ∷ gs

abbrev insertion_sort : Less → List FuncLog → List FuncLog
insertion_sort less [] = []
insertion_sort less (f ∷ fs) = insert less f (insertion_sort less fs)

-- The last one first makes a heap.
abbrev pub by_insertion : Sorts
by_insertion = record {
  init = λ less. insertion_sort (swapped less);
  fix = λ less. insertion_sort (swapped less);
  sort = insertion_sort;
}

count-insert :
    (p : FuncLog → Bool) (less : Less) (f : FuncLog) (gs : List FuncLog)
    → count p (insert less f gs) ≡ (if p f then 1 else 0) + count p gs
count-insert p less f [] = refl
count-insert p less f (g ∷ gs) = elim (Bool-cases (less g f)) [
  | inl e ↦ rw e (omega (arith, count-insert p less f gs))
  | inr e ↦ rw e refl
]

count-insertion_sort :
    (p : FuncLog → Bool) (less : Less) (fs : List FuncLog)
    → count p (insertion_sort less fs) ≡ count p fs
count-insertion_sort p less [] = refl
count-insertion_sort p less (f ∷ fs) =
    omega (arith, count-insert p less f (insertion_sort less fs), count-insertion_sort p less fs)

insert-All :
    (P : FuncLog → Type 0) (less : Less) (f : FuncLog) (gs : List FuncLog)
    → P f
    → All P gs
    → All P (insert less f gs)
insert-All P less f [] here all = (here, tt)
insert-All P less f (g ∷ gs) here (first, all) = elim (Bool-cases (less g f)) [
  | inl e ↦ rw e (first, insert-All P less f gs here all)
  | inr e ↦ rw e (here, (first, all))
]

module _ (rank : FuncLog → ℤ) where
  none_before :
      (f g : FuncLog) (gs : List FuncLog)
      → by_rank rank g f ≡ false
      → All (λ h. by_rank rank h g ≡ false) gs
      → All (λ h. by_rank rank h f ≡ false) gs
  none_before f g [] e all = tt
  none_before f g (h ∷ hs) e (first, all) = (ground arith, none_before f g hs e all)

  insert-IsSorted :
      (f : FuncLog) (gs : List FuncLog)
      → IsSorted (by_rank rank) gs
      → IsSorted (by_rank rank) (insert (by_rank rank) f gs)
  insert-IsSorted f [] sorted = (tt, tt)
  insert-IsSorted f (g ∷ gs) (first, sorted) = elim (Bool-cases (by_rank rank g f)) [
    | inl e ↦ rw e (
      insert-All (λ h. by_rank rank h g ≡ false) (by_rank rank) f gs (ground arith) first,
      insert-IsSorted f gs sorted,
    )
    | inr e ↦ rw e ((e, none_before f g gs e first), (first, sorted))
  ]

  insertion_sort-IsSorted :
      (fs : List FuncLog) → IsSorted (by_rank rank) (insertion_sort (by_rank rank) fs)
  insertion_sort-IsSorted [] = tt
  insertion_sort-IsSorted (f ∷ fs) =
      insert-IsSorted f (insertion_sort (by_rank rank) fs) (insertion_sort-IsSorted fs)

-- The first one is not before any other in the order.
LastFirst : Less → List FuncLog → Type 0
LastFirst less fs = IsSorted (swapped less) fs

sorted-LastFirst :
    (rank : FuncLog → ℤ) (fs : List FuncLog)
    → LastFirst (by_rank rank) (insertion_sort (swapped (by_rank rank)) fs)
unfolding LastFirst
sorted-LastFirst rank fs =
    rw (by_mirrored rank) (insertion_sort-IsSorted (λ f. mirrored (rank f)) fs)

by_insertion-IsSorts : (rank : FuncLog → ℤ) → IsSorts by_insertion (by_rank rank)
unfolding LastFirst
by_insertion-IsSorts rank = record {
  IsHeap = LastFirst (by_rank rank);
  count-init = λ p fs. count-insertion_sort p (swapped (by_rank rank)) fs;
  init-IsHeap = sorted-LastFirst rank;
  count-fix = λ p f fs. count-insertion_sort p (swapped (by_rank rank)) (f ∷ fs);
  fix-IsHeap = λ f top fs heap. sorted-LastFirst rank (f ∷ fs);
  heap_top = λ top fs heap. heap.0;
  count-sort = λ p fs. count-insertion_sort p (by_rank rank) fs;
  sort-IsSorted = insertion_sort-IsSorted rank;
}

abbrev pub call_from : ℤ → ℤ → FuncLog
call_from id start = record {
  id = id;
  start_time = start;
  end_time = negsuc 0;
  parent_id = negsuc 0;
  frames = [];
  gid = pos 1;
}

abbrev three_calls : List FuncLog
three_calls = call_from (pos 0) (pos 5) ∷ call_from (pos 1) (pos 9) ∷ call_from (pos 2) (pos 7) ∷ []

two_latest :
    (sort_fn sort_by_start_time descending_sort_order
      >>= (λ sort. sort_and_limit by_insertion sort 0 (pos 2) three_calls))
    ≡ ok (call_from (pos 1) (pos 9) ∷ call_from (pos 2) (pos 7) ∷ [])
unfolding sort_and_limit sort_fn
two_latest = refl

start_time_ne_none : ¬ (sort_by_start_time ≡ no_sort_key)
start_time_ne_none e = ground arith

descending_ne_none : ¬ (descending_sort_order ≡ no_sort_order)
descending_ne_none e = ground arith

sort_and_limit-smallest_of_example :
    (sort : SortFn) × (first : List FuncLog) × (sort_fn sort_by_start_time descending_sort_order
      ≡ ok sort)
    × IsSorted (by_rank (rank_of sort_by_start_time descending_sort_order)) first
    × ((t : ℤ)
        → count (λ f. leb_ℤ (rank_of sort_by_start_time descending_sort_order f) t) first
          ≡ min
              (count
                (λ f. leb_ℤ (rank_of sort_by_start_time descending_sort_order f) t)
                three_calls)
              (1 + 1))
    × ((p : FuncLog → Bool) → count p first ≤ count p three_calls)
    × (sort_and_limit by_insertion sort 1 (pos 1) three_calls ≡ ok (drop 1 first))
sort_and_limit-smallest_of_example =
    sort_and_limit-smallest_of by_insertion by_insertion-IsSorts sort_by_start_time
      descending_sort_order 1 0 three_calls start_time_ne_none descending_ne_none (omega arith)
