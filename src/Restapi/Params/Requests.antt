-- ===== src/Restapi/Params/Requests.antt =====
-- Which search the server does for the parameters of a client.
use goapptrace.Base.{
  ℕ, ◌≡◌, refl, arith, Bool, true, false, List, [], not, ◌&&◌, ◌||◌, if◌then◌else◌, Bool-cases, inl,
  inr,
}
use goapptrace.Base.Int.{ℤ}
use goapptrace.Restapi.Sorting.{
  SortKey, sort_by_id, sort_by_start_time, sort_by_end_time, no_sort_key, SortOrder, no_sort_order,
  ascending_sort_order, descending_sort_order,
}
use goapptrace.Restapi.Narrowing.{SearchFuncLogParams}
use goapptrace.Restapi.ParamNames.{param_eq}
use goapptrace.Restapi.Params.{
  bad_request, by_sql, by_simple_params, has_exclusive, func_call_search, Strconv, key_text,
  order_text, get_param, to_param_map, is_zero, is_empty, lacks_key, lacks_order,
}
use goapptrace.Restapi.Params.Sent.{
  IsStrconv, AreInt64, as_read, from_string-to_param_map, get_gid, get_min_id, get_max_id,
  get_min_timestamp, get_max_timestamp, get_limit, get_sort, get_order,
}

-- No parameter but SQL is sent.
abbrev pub is_only_sql : SearchFuncLogParams → Bool
is_only_sql p =
    is_zero p.gid
    && is_zero p.min_id
    && is_zero p.max_id
    && is_zero p.min_timestamp
    && is_zero p.max_timestamp
    && is_zero p.limit
    && lacks_key p.sort_key
    && lacks_order p.sort_order

is_empty-format :
    (lib : Strconv) (n : ℤ)
    → IsStrconv lib
    → is_empty (if is_zero n then [] else lib.format_int n) ≡ is_zero n
is_empty-format lib n laws = elim (Bool-cases (is_zero n)) [
  | inl e ↦ rw e refl
  | inr e ↦ rw e (laws.format_ne_empty n)
]

is_empty-key_text :
    (key : SortKey) → is_empty (if lacks_key key then [] else key_text key) ≡ lacks_key key
is_empty-key_text no_sort_key = refl
is_empty-key_text sort_by_id = refl
is_empty-key_text sort_by_start_time = refl
is_empty-key_text sort_by_end_time = refl

is_empty-order_text :
    (order : SortOrder)
    → is_empty (if lacks_order order then [] else order_text order) ≡ lacks_order order
is_empty-order_text no_sort_order = refl
is_empty-order_text ascending_sort_order = refl
is_empty-order_text descending_sort_order = refl

none_is_set :
    (a b c d e f g h : Bool)
    → (not a || not b || not c || not d || not e || not f || not g || not h)
      ≡ not (a && b && c && d && e && f && g && h)
none_is_set a b c d e f g h = ground arith

has_exclusive-sent :
    (lib : Strconv) (laws : IsStrconv lib) (p : SearchFuncLogParams)
    → has_exclusive lib (λ k. get_param k (to_param_map lib p)) ≡ not (is_only_sql p)
has_exclusive-sent lib laws p =
    rw
      (
        get_gid lib p,
        get_min_id lib p,
        get_max_id lib p,
        get_min_timestamp lib p,
        get_max_timestamp lib p,
        get_limit lib p,
        get_sort lib p,
        get_order lib p,
        is_empty-format lib p.gid laws,
        is_empty-format lib p.min_id laws,
        is_empty-format lib p.max_id laws,
        is_empty-format lib p.min_timestamp laws,
        is_empty-format lib p.max_timestamp laws,
        is_empty-format lib p.limit laws,
        is_empty-key_text p.sort_key,
        is_empty-order_text p.sort_order,
      )
      (none_is_set (is_zero p.gid) (is_zero p.min_id) (is_zero p.max_id) (is_zero p.min_timestamp)
        (is_zero p.max_timestamp) (is_zero p.limit) (lacks_key p.sort_key)
        (lacks_order p.sort_order))

search_lem :
    (empty only : Bool) (sql : List ℕ) (p : SearchFuncLogParams)
    → (if not empty then if not only then bad_request else by_sql sql else by_simple_params p)
      ≡ (if empty then by_simple_params p else if only then by_sql sql else bad_request)
search_lem true only sql p = refl
search_lem false true sql p = refl
search_lem false false sql p = refl

-- Let ParseInt read what FormatInt writes, which is not empty, and let the numbers be int64. Then the
-- server accepts the parameters that a client sends with an empty SQL text, and searches by them,
-- except that a number 0 is read as -1 and no order as the ascending one. With an SQL text it searches
-- by that text if every other parameter is its zero value, and answers that the request is bad if not.
pub func_call_search-to_param_map :
    (lib : Strconv) (laws : IsStrconv lib) (p : SearchFuncLogParams)
    → AreInt64 p
    → func_call_search lib (λ k. get_param k (to_param_map lib p)) ≡ (
        if is_empty p.sql
        then by_simple_params (as_read p)
        else if is_only_sql p
        then by_sql p.sql
        else bad_request)
unfolding func_call_search
func_call_search-to_param_map lib laws p small =
    rw (from_string-to_param_map lib laws p small, has_exclusive-sent lib laws p)
      (search_lem (is_empty p.sql) (is_only_sql p) p.sql (as_read p))
