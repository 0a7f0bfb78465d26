-- ===== src/Restapi/Narrowing.antt =====
-- tracer/restapi/handlers.go: funcCallSearchBySimpleParams, a search without SQL: the range of IDs that
-- the index leaves, the test of a call, and readFuncLog. Every stored call can be read, and no
-- call has frames that are nil; the simulator's calls are given. The index is loaded and does not change meanwhile.
pub mod Ranges
pub mod Wanted
pub mod Reading
pub mod Matches
use goapptrace.Base.{
  ℕ, zero, suc, ◌+◌, ◌-◌, Bool, true, false, not, ◌&&◌, ◌||◌, List, [], ◌∷◌, ◌++◌, Option, none,
  some, Outcome, ok, panic, ◌>>=◌, leb, ltb, if◌then◌else◌, take, drop, length,
}
use goapptrace.Base.Int.{ℤ, pos, negsuc, ltb_ℤ, leb_ℤ, ◌==ℤ◌}
use goapptrace.Types.{FuncLog}
use goapptrace.Storage.Index.{
  IndexRecord, Range, is_overlap_id, is_overlap_time, widen_if, no_range, max_int64,
}
use goapptrace.Restapi.Sorting.{
  SortKey, SortOrder, Sorts, SortFn, sort_fn, sort_and_limit, filter_func_log,
}

-- SearchFuncLogParams; a negative number is no bound.
pub record SearchFuncLogParams : Type 0 where
  pub gid : ℤ
  pub min_id : ℤ
  pub max_id : ℤ
  pub min_timestamp : ℤ
  pub max_timestamp : ℤ
  pub limit : ℤ
  pub sort_key : SortKey
  pub sort_order : SortOrder
  pub sql : List ℕ

abbrev pub given : ℤ → Bool
given n = leb_ℤ (pos 0) n

abbrev pub has_bounds : SearchFuncLogParams → Bool
has_bounds p = given p.min_id || given p.max_id || given p.min_timestamp || given p.max_timestamp

abbrev pub with_ids : ℤ → ℤ → SearchFuncLogParams → SearchFuncLogParams
with_ids lo hi p = record p { min_id = lo; max_id = hi }

abbrev pub with_all_ids : SearchFuncLogParams → SearchFuncLogParams
with_all_ids p =
    with_ids (if ltb_ℤ p.min_id (pos 0) then pos 0 else p.min_id)
      (if ltb_ℤ p.max_id (pos 0) then max_int64 else p.max_id) p

abbrev pub overlaps : SearchFuncLogParams → IndexRecord → Bool
overlaps p ir =
    is_overlap_id ir p.min_id p.max_id && is_overlap_time ir p.min_timestamp p.max_timestamp

-- newMinId, newMaxId and found after the loop.
unfoldable pub index_range : SearchFuncLogParams → List IndexRecord → Range → Range
index_range p [] r = r
index_range p (ir ∷ rs) r = index_range p rs (widen_if (overlaps p ir) ir r)

-- The assertion, and the new bounds; none is the return where nothing is found.
abbrev pub narrowed : SearchFuncLogParams → Range → Outcome (Option SearchFuncLogParams)
narrowed p r =
    if not r.found
    then ok none
    else if ltb_ℤ r.start_id p.min_id || ltb_ℤ p.max_id r.end_id
    then panic
    else ok (some (with_ids r.start_id r.end_id p))

unfoldable pub narrow :
    SearchFuncLogParams → List IndexRecord → Outcome (Option SearchFuncLogParams)
unfolding index_range
narrow p rs =
    if has_bounds p
    then narrowed (with_all_ids p) (index_range (with_all_ids p) rs no_range)
    else ok (some p)

-- true drops the call.
unfoldable pub is_filtered : SearchFuncLogParams → FuncLog → Bool
is_filtered p evt =
    if given p.gid && not (evt.gid ==ℤ p.gid)
    then true
    else if given p.min_id && ltb_ℤ evt.id p.min_id
    then true
    else if given p.max_id && ltb_ℤ p.max_id evt.id
    then true
    else if given p.min_timestamp
        && (ltb_ℤ evt.start_time p.min_timestamp && ltb_ℤ evt.end_time p.min_timestamp)
    then true
    else if given p.max_timestamp && ltb_ℤ p.max_timestamp evt.start_time
    then true
    else false

unfoldable pub filter_of : SearchFuncLogParams → Option (FuncLog → Bool)
filter_of p = if given p.gid || has_bounds p then some (is_filtered p) else none

-- The calls of the simulator that are not stored yet.
abbrev pub from_id : ℤ → List FuncLog → List FuncLog
from_id max_id [] = []
from_id max_id (fl ∷ fls) =
    let rest = from_id max_id fls in if ltb_ℤ fl.id max_id then rest else fl ∷ rest

abbrev pub as_index : ℤ → ℕ
as_index (pos n) = n
as_index (negsuc n) = 0

-- The upper bound, which does not belong to the range.
abbrev pub read_limit : ℤ → ℕ → ℤ
read_limit max_id n = if ltb_ℤ max_id (pos 0) || ltb_ℤ (pos n) max_id then pos n else max_id

-- readFuncLog; the calls of the store stand at their IDs.
unfoldable pub read_func_log : ℤ → ℤ → List FuncLog → List FuncLog → List FuncLog
read_func_log min_id max_id store running =
    let first = as_index min_id in
    let limit = read_limit max_id (length store) in
    take (as_index limit - first) (drop first store) ++ from_id limit running

-- What is sent to the client.
module _ (lib : Sorts) where
  abbrev pub search_in :
      SortFn → List FuncLog → List FuncLog → Option SearchFuncLogParams → Outcome (List FuncLog)
  search_in sort store running none = ok []
  search_in sort store running (some p) =
      sort_and_limit lib sort 0 p.limit
        (filter_func_log (filter_of p) (read_func_log p.min_id p.max_id store running))

  unfoldable pub func_call_search_by_simple_params :
      SearchFuncLogParams → List IndexRecord → List FuncLog → List FuncLog → Outcome (List FuncLog)
  unfolding narrow read_func_log filter_of
  func_call_search_by_simple_params p rs store running =
      sort_fn p.sort_key p.sort_order >>= λ sort. narrow p rs >>= search_in sort store running
