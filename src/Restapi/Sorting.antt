-- ===== src/Restapi/Sorting.antt =====
-- tracer/restapi/handlers.go: FuncLogAPIWorker.filterFuncLog and sortAndLimit, and the order that a
-- search without SQL asks for. The channels are lists: nothing stops the workers before their input is
-- closed. container/heap and sort are parameters. The offset is not
-- negative, and its sum with the rows fits an int64; every caller with a comparison has the offset 0.
pub mod Keys
pub mod Smallest
use goapptrace.Base.{
  ℕ, zero, suc, ◌+◌, ◌-◌, Bool, true, false, not, ◌&&◌, ◌||◌, List, [], ◌∷◌, Option, none, some,
  Outcome, ok, panic, leb, ltb, if◌then◌else◌, take, drop, length,
}
use goapptrace.Base.Int.{ℤ, pos, negsuc, ltb_ℤ, leb_ℤ, ◌==ℤ◌}
use goapptrace.Types.{FuncLog}

pub data SortKey : Type 0 where
  sort_by_id : SortKey
  sort_by_start_time : SortKey
  sort_by_end_time : SortKey
  no_sort_key : SortKey

pub data SortOrder : Type 0 where
  no_sort_order : SortOrder
  ascending_sort_order : SortOrder
  descending_sort_order : SortOrder

-- A comparison, which is nil for no key.
abbrev pub Less : Type 0
Less = FuncLog → FuncLog → Bool

unfoldable pub key_less : SortKey → Option Less
key_less sort_by_id = some (λ f g. ltb_ℤ f.id g.id)
key_less sort_by_start_time = some (λ f g. ltb_ℤ f.start_time g.start_time)
key_less sort_by_end_time = some (λ f g. ltb_ℤ f.end_time g.end_time)
key_less no_sort_key = none

-- Two calls swapped.
abbrev pub swapped : Less → Less
swapped less f g = less g f

-- The comparison that sortAndLimit is given. A descending order of no key is a function that calls nil,
-- which panics once two calls are compared.
pub data SortFn : Type 0 where
  no_sort : SortFn
  sort_with : Less → SortFn
  nil_call : SortFn

-- log.Panic("bug") for no order.
unfoldable pub sort_fn : SortKey → SortOrder → Outcome SortFn
unfolding key_less
sort_fn k no_sort_order = panic
sort_fn k ascending_sort_order =
    ok (elim (key_less k) [ none ↦ no_sort | some less ↦ sort_with less ])
sort_fn k descending_sort_order =
    ok (elim (key_less k) [ none ↦ nil_call | some less ↦ sort_with (swapped less) ])

-- filterFuncLog; a nil test lets all pass.
abbrev pub passing : (FuncLog → Bool) → List FuncLog → List FuncLog
passing is_filtered [] = []
passing is_filtered (f ∷ fs) =
    let rest = passing is_filtered fs in if is_filtered f then rest else f ∷ rest

unfoldable pub filter_func_log : Option (FuncLog → Bool) → List FuncLog → List FuncLog
filter_func_log none fs = fs
filter_func_log (some is_filtered) fs = passing is_filtered fs

-- heap.Init, heap.Fix at 0, and sort.Slice, with their comparison.
pub record Sorts : Type 0 where
  pub init : Less → List FuncLog → List FuncLog
  pub fix : Less → List FuncLog → List FuncLog
  pub sort : Less → List FuncLog → List FuncLog

module _ (lib : Sorts) where
  -- if less(evt, items[0]) { items[0] = evt; heap.Fix(&h, 0) }
  abbrev pub update : Less → FuncLog → List FuncLog → Outcome (List FuncLog)
  update less evt [] = panic
  update less evt (top ∷ items) =
      if less evt top then ok (lib.fix less (evt ∷ items)) else ok (top ∷ items)

  -- UpdateItemsLoop
  unfoldable pub update_items : Less → List FuncLog → List FuncLog → Outcome (List FuncLog)
  update_items less [] items = ok items
  update_items less (evt ∷ evts) items = elim (update less evt items) [
    | panic ↦ panic
    | ok items' ↦ update_items less evts items'
  ]

  -- The items that are kept: all of them, or as many as are wanted. FillItemsLoop takes the first ones.
  unfoldable pub kept_items : Less → ℕ → ℤ → List FuncLog → Outcome (List FuncLog)
  unfolding update_items
  kept_items less offset (negsuc n) evts = ok evts
  kept_items less offset (pos zero) evts = ok evts
  kept_items less offset (pos (suc n)) evts =
      let k = offset + suc n in update_items less (drop k evts) (lib.init less (take k evts))

  abbrev pub sorted_from : Less → ℕ → Outcome (List FuncLog) → Outcome (List FuncLog)
  sorted_from less offset panic = panic
  sorted_from less offset (ok items) =
      let items' = lib.sort less items in
      if leb (length items') offset then ok [] else ok (drop offset items')

  -- The loops of the case without a comparison.
  abbrev pub limited : ℕ → ℤ → List FuncLog → List FuncLog
  limited offset (negsuc n) evts = evts
  limited offset (pos zero) evts = evts
  limited offset (pos (suc n)) evts = take (suc n) (drop offset evts)

  unfoldable pub sort_and_limit : SortFn → ℕ → ℤ → List FuncLog → Outcome (List FuncLog)
  unfolding kept_items
  sort_and_limit no_sort offset rows evts = ok (limited offset rows evts)
  sort_and_limit (sort_with less) offset rows evts =
      sorted_from less offset (kept_items less offset rows evts)
  sort_and_limit nil_call offset rows evts =
      if ltb 1 (length evts) then panic else ok (drop offset evts)
