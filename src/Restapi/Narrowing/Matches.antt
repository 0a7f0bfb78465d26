-- ===== src/Restapi/Narrowing/Matches.antt =====
-- What a search without SQL finds.
use goapptrace.Base.{
  ◌⊎◌, inl, inr, Bool-cases, subst, sym, ℕ, ◌≡◌, refl, arith, true, false, List, [], ◌∷◌, some, ok,
  All, if◌then◌else◌, get_elem?,
}
use goapptrace.Base.Int.{ℤ, pos, ltb_ℤ, ◌≤ℤ◌, ◌<ℤ◌, IsInt64, eq_of_parts}
use goapptrace.Types.{FuncLog}
use goapptrace.Storage.Index.{
  IndexRecord, Range, is_overlap_id, is_overlap_time, no_range, max_int64, min_int64,
}
use goapptrace.Restapi.Narrowing.{
  SearchFuncLogParams, has_bounds, with_all_ids, with_ids, overlaps, index_range, narrowed, narrow,
  is_filtered, filter_of, read_func_log, func_call_search_by_simple_params,
}
use goapptrace.Restapi.Narrowing.Reading.{Has, filter_func_log-Has, read_func_log-Has}
use goapptrace.Restapi.Sorting.{filter_func_log, Sorts, SortFn, sort_fn}
use goapptrace.Restapi.Narrowing.Ranges.{
  index_range-Within, index_range-none, index_range-inside, IsWhole,
}
use goapptrace.Restapi.Narrowing.Wanted.{
  Records, and_false, passes-IsWanted, passes_of_wanted, recorded-overlaps, narrowed-IsWanted,
}

narrowed_lem :
    (p : SearchFuncLogParams) (r : Range)
    → r.found ≡ true
    → p.min_id ≤ℤ r.start_id
    → r.end_id ≤ℤ p.max_id
    → narrowed p r ≡ ok (some (with_ids r.start_id r.end_id p))
narrowed_lem p r found from to =
    let a : ltb_ℤ r.start_id p.min_id ≡ false = ground arith in
    let b : ltb_ℤ p.max_id r.end_id ≡ false = ground arith in rw (found, a, b) refl

all_ids-small : (lo : ℤ) → IsInt64 lo → (if ltb_ℤ lo (pos 0) then pos 0 else lo) ≤ℤ max_int64
all_ids-small lo small = ground arith

all_ids-large : (hi : ℤ) → min_int64 ≤ℤ (if ltb_ℤ hi (pos 0) then max_int64 else hi)
all_ids-large hi = ground arith

below_or_at : (a b : ℤ) → a ≤ℤ b → (a ≡ b) ⊎ (a <ℤ b)
below_or_at a b h = elim (Bool-cases (ltb_ℤ a b)) [
  | inl e ↦ inr (ground arith)
  | inr e ↦ inl (eq_of_parts a b (ground arith))
]

-- Let the parameters have an int64 as the lower bound of the IDs, a bound of the end of the times, and
-- leave no record of the index that overlaps them partly outside of the bounds of the IDs. Then
-- narrowing does not panic, and a call that has ended, stands in a record of the index and passes the test
-- of the parameters, has an ID between the new bounds and passes the test of the new parameters. Where
-- the call is stored at its ID, it is among the calls that readFuncLog and filterFuncLog pass on for the
-- new parameters, or its ID is the new upper bound, at which readFuncLog stops.
pub narrow-keeps :
    (p : SearchFuncLogParams) (rs : List IndexRecord) (i : ℕ) (ir : IndexRecord) (evt : FuncLog)
    (j : ℕ) (store running : List FuncLog)
    → IsInt64 p.min_id
    → pos 0 ≤ℤ p.max_timestamp
    → All (IsWhole (with_all_ids p)) rs
    → get_elem? rs i ≡ some ir
    → IsInt64 evt.id
    → evt.id ≡ pos j
    → get_elem? store j ≡ some evt
    → pos 0 ≤ℤ evt.end_time
    → Records ir evt
    → is_filtered p evt ≡ false
    → (q : SearchFuncLogParams) × (narrow p rs ≡ ok (some q))
      × (q.min_id ≤ℤ evt.id)
      × (evt.id ≤ℤ q.max_id)
      × (is_filtered q evt ≡ false)
      × ((evt.id ≡ q.max_id)
          ⊎ Has (filter_func_log (filter_of q) (read_func_log q.min_id q.max_id store running)) evt)
unfolding narrow
narrow-keeps p rs i ir evt j store running low until whole at small is_j stored ended recorded
      passes =
    let id : pos 0 ≤ℤ evt.id = subst (λ n. pos 0 ≤ℤ n) (sym is_j) (omega arith) in
    let all = with_all_ids p in
    let r = index_range all rs no_range in
    let wanted = passes-IsWanted p evt passes in
    let (found, (from, to)) =
      index_range-Within all rs no_range i ir at
        (recorded-overlaps p ir evt small id ended recorded until wanted) in
    let (a, b) =
      index_range-inside all rs no_range whole (all_ids-small p.min_id low)
        (all_ids-large p.max_id) in
    let bounded : has_bounds p ≡ true = ground arith in
    let left : r.start_id ≤ℤ evt.id = omega (arith, recorded) in
    let right : evt.id ≤ℤ r.end_id = omega (arith, recorded) in
    let q = with_ids r.start_id r.end_id all in
    let passes_q : is_filtered q evt ≡ false =
      passes_of_wanted q evt (narrowed-IsWanted p r.start_id r.end_id evt left right wanted) in
    (
      q,
      rw bounded (narrowed_lem all r found a b),
      left,
      right,
      passes_q,
      elim (below_or_at evt.id r.end_id right) [
        | inl same ↦ inl same
        | inr below ↦ inr (
            filter_func_log-Has q (read_func_log r.start_id r.end_id store running) evt
              (read_func_log-Has r.start_id r.end_id j store running evt
                (subst (λ n. r.start_id ≤ℤ n) is_j left) (subst (λ n. n <ℤ r.end_id) is_j below)
                stored)
              passes_q)
      ],
    )

starts-missed :
    (p : SearchFuncLogParams) (rs : List IndexRecord)
    → p.max_timestamp <ℤ pos 0
    → All (λ ir. pos 0 ≤ℤ ir.min_start) rs
    → All (λ ir. overlaps p ir ≡ false) rs
starts-missed p [] no_end starts = tt
starts-missed p (ir ∷ rs) no_end (start, starts) =
    let missed : is_overlap_time ir p.min_timestamp p.max_timestamp ≡ false = ground arith in
    (rw missed (and_false (is_overlap_id ir p.min_id p.max_id)), starts-missed p rs no_end starts)

-- Where bounds of the IDs or of the start of the times are given but none of the end, a search without
-- SQL sends nothing, whatever the calls: the bound -1 is taken for a time.
pub search-empty :
    (lib : Sorts) (p : SearchFuncLogParams) (sort : SortFn) (rs : List IndexRecord)
    (store running : List FuncLog)
    → sort_fn p.sort_key p.sort_order ≡ ok sort
    → has_bounds p ≡ true
    → p.max_timestamp <ℤ pos 0
    → All (λ ir. pos 0 ≤ℤ ir.min_start) rs
    → func_call_search_by_simple_params lib p rs store running ≡ ok []
unfolding func_call_search_by_simple_params narrow
search-empty lib p sort rs store running sorted bounded no_end starts =
    let all = with_all_ids p in
    let none_found : index_range all rs no_range ≡ no_range =
      index_range-none all rs no_range (starts-missed all rs no_end starts) in
    rw (sorted, bounded, none_found) refl
