-- ===== src/Examples/Narrowing.antt =====
-- tracer/restapi/handlers.go: searches without SQL of a log with two calls.
use goapptrace.Base.{◌⊎◌, ◌≡◌, refl, false, List, [], ◌∷◌, some, ok, arith}
use goapptrace.Base.Int.{ℤ, pos, negsuc, ◌≤ℤ◌}
use goapptrace.Types.{FuncLog}
use goapptrace.Storage.Index.{IndexRecord}
use goapptrace.Restapi.Narrowing.Reading.{Has}
use goapptrace.Restapi.Sorting.{
  filter_func_log, ascending_sort_order, sort_fn, no_sort, no_sort_key,
}
use goapptrace.Restapi.Narrowing.{
  SearchFuncLogParams, narrow, is_filtered, filter_of, read_func_log,
  func_call_search_by_simple_params,
}
use goapptrace.Restapi.Narrowing.Matches.{narrow-keeps, search-empty}
use goapptrace.Examples.Sorting.{by_insertion, call_from}

abbrev call_between : ℤ → ℤ → ℤ → FuncLog
call_between id start end = record (call_from id start) { end_time = end }

abbrev first_call : FuncLog
first_call = call_between (pos 0) (pos 5) (pos 9)

abbrev calls : List FuncLog
calls = first_call ∷ call_between (pos 1) (pos 6) (pos 7) ∷ []

abbrev index_record : IndexRecord
index_record = record {
  min_id = pos 0;
  max_id = pos 1;
  min_start = pos 5;
  max_start = pos 6;
  min_end = pos 7;
  max_end = pos 9;
}

abbrev until : ℤ → SearchFuncLogParams
until end = record {
  gid = negsuc 0;
  min_id = negsuc 0;
  max_id = negsuc 0;
  min_timestamp = pos 6;
  max_timestamp = end;
  limit = negsuc 0;
  sort_key = no_sort_key;
  sort_order = ascending_sort_order;
  sql = [];
}

passes : is_filtered (until (pos 8)) first_call ≡ false
unfolding is_filtered
passes = refl

no_sort_lem : sort_fn no_sort_key ascending_sort_order ≡ ok no_sort
unfolding sort_fn
no_sort_lem = refl

narrow-keeps_example :
    (q : SearchFuncLogParams) × (narrow (until (pos 8)) (index_record ∷ []) ≡ ok (some q))
    × (q.min_id ≤ℤ pos 0)
    × (pos 0 ≤ℤ q.max_id)
    × (is_filtered q first_call ≡ false)
    × ((◌≡◌ {A = ℤ} (pos 0) q.max_id)
        ⊎ Has (filter_func_log (filter_of q) (read_func_log q.min_id q.max_id calls [])) first_call)
narrow-keeps_example =
    narrow-keeps (until (pos 8)) (index_record ∷ []) 0 index_record first_call 0 calls []
      (omega arith) (omega arith) ((λ o. omega arith), tt) refl (omega arith) refl refl
      (omega arith) (omega arith) passes

search-empty_example :
    func_call_search_by_simple_params by_insertion (until (negsuc 0)) (index_record ∷ []) calls []
    ≡ ok []
search-empty_example =
    search-empty by_insertion (until (negsuc 0)) no_sort (index_record ∷ []) calls [] no_sort_lem
      refl (omega arith) (omega arith, tt)
