-- ===== src/Restapi/Params/Sent.antt =====
-- The parameters that the server reads are those that the client wrote.
use goapptrace.Base.{
  ℕ, ◌≡◌, refl, ◌∙◌, ap, arith, Bool, true, false, List, [], ◌∷◌, Option, some, if◌then◌else◌,
  Bool-cases, inl, inr,
}
use goapptrace.Base.Int.{ℤ, negsuc, IsInt64}
use goapptrace.Base.Maps.{lookup, lookup-insert}
use goapptrace.Sql.Evaluation.{same_string}
use goapptrace.Restapi.Sorting.{
  SortKey, sort_by_id, sort_by_start_time, sort_by_end_time, no_sort_key, SortOrder, no_sort_order,
  ascending_sort_order, descending_sort_order,
}
use goapptrace.Restapi.Narrowing.{SearchFuncLogParams}
use goapptrace.Restapi.ParamNames.{
  Param, gid_param, min_id_param, max_id_param, min_timestamp_param, max_timestamp_param,
  limit_param, sort_param, order_param, sql_param, same_param, param_eq,
}
use goapptrace.Restapi.Params.{
  or_invalid, Strconv, key_text, order_text, set_unless, get_param, text_or_empty, valid,
  parse_sort_key, parse_sort_order, sort_param_of, order_param_of, to_param_map, int_param,
  from_string, is_zero, is_empty, lacks_key, lacks_order,
}

-- What strconv documents: ParseInt reads what FormatInt writes, which is never empty.
pub record IsStrconv (lib : Strconv) : Type 0 where
  pub parse-format : (n : ℤ) → IsInt64 n → lib.parse_int (lib.format_int n) ≡ some n
  pub format_ne_empty : (n : ℤ) → is_empty (lib.format_int n) ≡ false

get_param-set_unless :
    (j k : Param) (b : Bool) (v : List ℕ) (m : List (Param × List ℕ))
    → get_param j (set_unless b k v m)
      ≡ (if same_param k j then (if b then get_param j m else v) else get_param j m)
get_param-set_unless j k true v m = ground arith
get_param-set_unless j k false v m =
    rw (lookup-insert k j v m) (set_lem (same_param k j) v (lookup j m))
  where
    set_lem :
        (c : Bool) (v : List ℕ) (o : Option (List ℕ))
        → text_or_empty (if c then some v else o) ≡ (if c then v else text_or_empty o)
    set_lem true v o = refl
    set_lem false v o = refl

module _ (lib : Strconv) (p : SearchFuncLogParams) where
  pub get_gid :
      get_param gid_param (to_param_map lib p)
      ≡ (if is_zero p.gid then [] else lib.format_int p.gid)
  unfolding to_param_map lookup
  get_gid = simp (get_param-set_unless)

  pub get_min_id :
      get_param min_id_param (to_param_map lib p)
      ≡ (if is_zero p.min_id then [] else lib.format_int p.min_id)
  unfolding to_param_map lookup
  get_min_id = simp (get_param-set_unless)

  pub get_max_id :
      get_param max_id_param (to_param_map lib p)
      ≡ (if is_zero p.max_id then [] else lib.format_int p.max_id)
  unfolding to_param_map lookup
  get_max_id = simp (get_param-set_unless)

  pub get_min_timestamp :
      get_param min_timestamp_param (to_param_map lib p)
      ≡ (if is_zero p.min_timestamp then [] else lib.format_int p.min_timestamp)
  unfolding to_param_map lookup
  get_min_timestamp = simp (get_param-set_unless)

  pub get_max_timestamp :
      get_param max_timestamp_param (to_param_map lib p)
      ≡ (if is_zero p.max_timestamp then [] else lib.format_int p.max_timestamp)
  unfolding to_param_map lookup
  get_max_timestamp = simp (get_param-set_unless)

  pub get_limit :
      get_param limit_param (to_param_map lib p)
      ≡ (if is_zero p.limit then [] else lib.format_int p.limit)
  unfolding to_param_map lookup
  get_limit = simp (get_param-set_unless)

  pub get_sort :
      get_param sort_param (to_param_map lib p)
      ≡ (if lacks_key p.sort_key then [] else key_text p.sort_key)
  unfolding to_param_map lookup
  get_sort = simp (get_param-set_unless)

  pub get_order :
      get_param order_param (to_param_map lib p)
      ≡ (if lacks_order p.sort_order then [] else order_text p.sort_order)
  unfolding to_param_map lookup
  get_order = simp (get_param-set_unless)

  pub get_sql : get_param sql_param (to_param_map lib p) ≡ (if is_empty p.sql then [] else p.sql)
  unfolding to_param_map lookup
  get_sql = simp (get_param-set_unless)

-- A number that is not sent is read as -1.
abbrev pub int_read : ℤ → ℤ
int_read n = if is_zero n then negsuc 0 else n

abbrev pub order_read : SortOrder → SortOrder
order_read no_sort_order = ascending_sort_order
order_read order = order

-- What the server reads for the parameters of the client.
abbrev pub as_read : SearchFuncLogParams → SearchFuncLogParams
as_read p = record {
  gid = int_read p.gid;
  min_id = int_read p.min_id;
  max_id = int_read p.max_id;
  min_timestamp = int_read p.min_timestamp;
  max_timestamp = int_read p.max_timestamp;
  limit = int_read p.limit;
  sort_key = p.sort_key;
  sort_order = order_read p.sort_order;
  sql = p.sql;
}

abbrev pub AreInt64 : SearchFuncLogParams → Type 0
AreInt64 p =
    IsInt64 p.gid
    × IsInt64 p.min_id
    × IsInt64 p.max_id
    × IsInt64 p.min_timestamp
    × IsInt64 p.max_timestamp
    × IsInt64 p.limit

int_param_lem :
    (lib : Strconv) (k : Param) (s : List ℕ)
    → is_empty s ≡ false
    → int_param lib k s ≡ or_invalid k (lib.parse_int s)
int_param_lem lib k [] h = ground arith
int_param_lem lib k (c ∷ cs) h = refl

int_param-format :
    (lib : Strconv) (k : Param) (n : ℤ)
    → IsStrconv lib
    → IsInt64 n
    → int_param lib k (if is_zero n then [] else lib.format_int n) ≡ valid (int_read n)
int_param-format lib k n laws small = elim (Bool-cases (is_zero n)) [
  | inl e ↦ rw e refl
  | inr e ↦ rw e (
      int_param_lem lib k (lib.format_int n) (laws.format_ne_empty n)
      ∙ ap (or_invalid k) (laws.parse-format n small))
]

sort_param_of-key_text :
    (key : SortKey) → sort_param_of (if lacks_key key then [] else key_text key) ≡ valid key
unfolding sort_param_of parse_sort_key same_string
sort_param_of-key_text no_sort_key = refl
sort_param_of-key_text sort_by_id = refl
sort_param_of-key_text sort_by_start_time = refl
sort_param_of-key_text sort_by_end_time = refl

order_param_of-order_text :
    (order : SortOrder)
    → order_param_of (if lacks_order order then [] else order_text order) ≡ valid (order_read order)
unfolding order_param_of parse_sort_order same_string
order_param_of-order_text no_sort_order = refl
order_param_of-order_text ascending_sort_order = refl
order_param_of-order_text descending_sort_order = refl

sql_lem : (s : List ℕ) → (if is_empty s then [] else s) ≡ s
sql_lem [] = refl
sql_lem (c ∷ cs) = refl

pub from_string-to_param_map :
    (lib : Strconv) (laws : IsStrconv lib) (p : SearchFuncLogParams)
    → AreInt64 p
    → from_string lib (λ k. get_param k (to_param_map lib p)) ≡ valid (as_read p)
unfolding from_string
from_string-to_param_map lib laws p (a, b, c, d, e, f) =
    rw
      (
        get_gid lib p,
        get_min_id lib p,
        get_max_id lib p,
        get_min_timestamp lib p,
        get_max_timestamp lib p,
        get_limit lib p,
        get_sort lib p,
        get_order lib p,
        get_sql lib p,
        int_param-format lib gid_param p.gid laws a,
        int_param-format lib min_id_param p.min_id laws b,
        int_param-format lib max_id_param p.max_id laws c,
        int_param-format lib min_timestamp_param p.min_timestamp laws d,
        int_param-format lib max_timestamp_param p.max_timestamp laws e,
        int_param-format lib limit_param p.limit laws f,
        sort_param_of-key_text p.sort_key,
        order_param_of-order_text p.sort_order,
        sql_lem p.sql,
      )
      refl
