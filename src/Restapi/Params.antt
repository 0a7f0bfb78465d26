-- ===== src/Restapi/Params.antt =====
-- tracer/restapi/structs.go and client.go: the parameters of a search as the client writes them into a
-- request, and as funcCallSearch of handlers.go reads them. The request carries the map as it is. strconv is a parameter.
pub mod Sent
pub mod Requests
use goapptrace.Base.{
  ℕ, zero, suc, ◌≡◌, ◌↔◌, refl, sym, ap, ◌∙◌, ==_iff, Bool, true, false, not, ◌||◌, ◌==◌, List, [],
  ◌∷◌, Option, none, some, if◌then◌else◌,
}
use goapptrace.Base.Int.{ℤ, pos, negsuc, ◌==ℤ◌}
use goapptrace.Base.Maps.{Eq, lookup, insert}
use goapptrace.Sql.Evaluation.{same_string}
use goapptrace.Restapi.Sorting.{
  SortKey, sort_by_id, sort_by_start_time, sort_by_end_time, no_sort_key, SortOrder, no_sort_order,
  ascending_sort_order, descending_sort_order,
}
use goapptrace.Restapi.Narrowing.{SearchFuncLogParams}
use goapptrace.Restapi.ParamNames.{
  Param, gid_param, min_id_param, max_id_param, min_timestamp_param, max_timestamp_param,
  limit_param, sort_param, order_param, sql_param, same_param, param_eq,
}

-- FormatInt and ParseInt in base 10 for an int64; none is an error.
pub record Strconv : Type 0 where
  pub format_int : ℤ → List ℕ
  pub parse_int : List ℕ → Option ℤ

abbrev pub key_text : SortKey → List ℕ
key_text no_sort_key = []
key_text sort_by_id = b'i' ∷ b'd' ∷ []
key_text sort_by_start_time =
    b's' ∷ b't' ∷ b'a' ∷ b'r' ∷ b't' ∷ b'-' ∷ b't' ∷ b'i' ∷ b'm' ∷ b'e' ∷ []
key_text sort_by_end_time = b'e' ∷ b'n' ∷ b'd' ∷ b'-' ∷ b't' ∷ b'i' ∷ b'm' ∷ b'e' ∷ []

abbrev pub order_text : SortOrder → List ℕ
order_text no_sort_order = []
order_text ascending_sort_order = b'a' ∷ b's' ∷ b'c' ∷ []
order_text descending_sort_order = b'd' ∷ b'e' ∷ b's' ∷ b'c' ∷ []

-- m[k] = v, if the field is not its zero value.
abbrev pub set_unless : Bool → Param → List ℕ → List (Param × List ℕ) → List (Param × List ℕ)
set_unless b k v m = if b then m else insert k v m

abbrev pub is_zero : ℤ → Bool
is_zero n = n ==ℤ pos 0

abbrev pub is_empty : List ℕ → Bool
is_empty [] = true
is_empty (c ∷ cs) = false

abbrev pub lacks_key : SortKey → Bool
lacks_key no_sort_key = true
lacks_key key = false

abbrev pub lacks_order : SortOrder → Bool
lacks_order no_sort_order = true
lacks_order order = false

-- Query().Get
abbrev pub text_or_empty : Option (List ℕ) → List ℕ
text_or_empty none = []
text_or_empty (some v) = v

abbrev pub get_param : Param → List (Param × List ℕ) → List ℕ
get_param k m = text_or_empty (lookup k m)

-- What FromString returns: the parameters, or the name of the invalid one.
pub data Checked (A : Type 0) : Type 0 where
  valid : A → Checked A
  invalid : Param → Checked A

-- What funcCallSearch does with a request.
pub data Search : Type 0 where
  bad_request : Search
  by_sql : List ℕ → Search
  by_simple_params : SearchFuncLogParams → Search

abbrev pub and_then : {A B : Type 0} → Checked A → (A → Checked B) → Checked B
and_then (valid a) f = f a
and_then (invalid k) f = invalid k

abbrev pub or_invalid : {A : Type 0} → Param → Option A → Checked A
or_invalid k none = invalid k
or_invalid k (some a) = valid a

-- Parse of a SortKey and of a SortOrder
unfoldable pub parse_sort_key : List ℕ → Option SortKey
unfolding same_string
parse_sort_key s =
    if same_string s (key_text no_sort_key)
    then some no_sort_key
    else if same_string s (key_text sort_by_id)
    then some sort_by_id
    else if same_string s (key_text sort_by_start_time)
    then some sort_by_start_time
    else if same_string s (key_text sort_by_end_time)
    then some sort_by_end_time
    else none

unfoldable pub parse_sort_order : List ℕ → SortOrder → Option SortOrder
unfolding same_string
parse_sort_order s default_order =
    if same_string s (order_text no_sort_order)
    then some default_order
    else if same_string s (order_text ascending_sort_order)
    then some ascending_sort_order
    else if same_string s (order_text descending_sort_order)
    then some descending_sort_order
    else none

unfoldable pub sort_param_of : List ℕ → Checked SortKey
unfolding parse_sort_key
sort_param_of [] = valid no_sort_key
sort_param_of (c ∷ cs) = or_invalid sort_param (parse_sort_key (c ∷ cs))

unfoldable pub order_param_of : List ℕ → Checked SortOrder
unfolding parse_sort_order
order_param_of [] = valid ascending_sort_order
order_param_of (c ∷ cs) = or_invalid order_param (parse_sort_order (c ∷ cs) ascending_sort_order)

module _ (lib : Strconv) where
  unfoldable pub to_param_map : SearchFuncLogParams → List (Param × List ℕ)
  to_param_map p =
      let m0 = set_unless (is_zero p.gid) gid_param (lib.format_int p.gid) [] in
      let m1 = set_unless (is_zero p.min_id) min_id_param (lib.format_int p.min_id) m0 in
      let m2 = set_unless (is_zero p.max_id) max_id_param (lib.format_int p.max_id) m1 in
      let m3 =
        set_unless (is_zero p.min_timestamp) min_timestamp_param (lib.format_int p.min_timestamp)
          m2 in
      let m4 =
        set_unless (is_zero p.max_timestamp) max_timestamp_param (lib.format_int p.max_timestamp)
          m3 in
      let m5 = set_unless (is_zero p.limit) limit_param (lib.format_int p.limit) m4 in
      let m6 = set_unless (lacks_key p.sort_key) sort_param (key_text p.sort_key) m5 in
      let m7 = set_unless (lacks_order p.sort_order) order_param (order_text p.sort_order) m6 in
      set_unless (is_empty p.sql) sql_param p.sql m7

  abbrev pub int_param : Param → List ℕ → Checked ℤ
  int_param k [] = valid (negsuc 0)
  int_param k (c ∷ cs) = or_invalid k (lib.parse_int (c ∷ cs))

  -- SearchFuncLogParams.FromString of what Get answers.
  unfoldable pub from_string : (Param → List ℕ) → Checked SearchFuncLogParams
  unfolding sort_param_of order_param_of
  from_string get = and_then (int_param gid_param (get gid_param)) (λ gid.
      and_then (int_param min_id_param (get min_id_param)) (λ min_id.
        and_then (int_param max_id_param (get max_id_param)) (λ max_id.
          and_then (int_param min_timestamp_param (get min_timestamp_param)) (λ min_timestamp.
            and_then (int_param max_timestamp_param (get max_timestamp_param)) (λ max_timestamp.
              and_then (int_param limit_param (get limit_param)) (λ limit.
                and_then (sort_param_of (get sort_param)) (λ sort_key.
                  and_then (order_param_of (get order_param)) (λ sort_order. valid record {
                    gid = gid;
                    min_id = min_id;
                    max_id = max_id;
                    min_timestamp = min_timestamp;
                    max_timestamp = max_timestamp;
                    limit = limit;
                    sort_key = sort_key;
                    sort_order = sort_order;
                    sql = get sql_param;
                  }))))))))

  -- The test that no other parameter stands beside SQL.
  abbrev pub has_exclusive : (Param → List ℕ) → Bool
  has_exclusive get =
      not (is_empty (get gid_param))
      || not (is_empty (get min_id_param))
      || not (is_empty (get max_id_param))
      || not (is_empty (get min_timestamp_param))
      || not (is_empty (get max_timestamp_param))
      || not (is_empty (get limit_param))
      || not (is_empty (get sort_param))
      || not (is_empty (get order_param))

  abbrev pub search_of : (Param → List ℕ) → Checked SearchFuncLogParams → Search
  search_of get (invalid k) = bad_request
  search_of get (valid p) =
      if not (is_empty p.sql)
      then if has_exclusive get then bad_request else by_sql p.sql
      else by_simple_params p

  -- funcCallSearch
  unfoldable pub func_call_search : (Param → List ℕ) → Search
  unfolding from_string
  func_call_search get = search_of get (from_string get)
