-- ===== src/Examples/Requesting.antt =====
-- tracer/restapi/structs.go: the parameters of a search for a goroutine, with numbers as one byte.
use goapptrace.Base.{
  ℕ, ◌≡◌, refl, false, List, [], ◌∷◌, Option, none, some, if◌then◌else◌, ◌==◌, arith,
}
use goapptrace.Base.Int.{ℤ, pos, negsuc, IsInt64}
use goapptrace.Restapi.Sorting.{sort_by_id, descending_sort_order}
use goapptrace.Restapi.Narrowing.{SearchFuncLogParams}
use goapptrace.Restapi.Params.{
  Strconv, is_empty, get_param, to_param_map, by_simple_params, func_call_search,
}
use goapptrace.Restapi.Params.Sent.{IsStrconv, as_read}
use goapptrace.Restapi.Params.Requests.{func_call_search-to_param_map}

-- A sign and the number.
abbrev format_int : ℤ → List ℕ
format_int (pos n) = b'+' ∷ n ∷ []
format_int (negsuc n) = b'-' ∷ n ∷ []

abbrev parse_int : List ℕ → Option ℤ
parse_int (c ∷ n ∷ []) = if c == b'+' then some (pos n) else some (negsuc n)
parse_int s = none

abbrev one_digit : Strconv
one_digit = record { format_int = format_int; parse_int = parse_int }

one_digit-IsStrconv : IsStrconv one_digit
one_digit-IsStrconv = record { parse-format = parsed; format_ne_empty = not_empty }
  where
    parsed : (n : ℤ) → IsInt64 n → parse_int (format_int n) ≡ some n
    parsed (pos n) small = refl
    parsed (negsuc n) small = refl

    not_empty : (n : ℤ) → is_empty (format_int n) ≡ false
    not_empty (pos n) = refl
    not_empty (negsuc n) = refl

abbrev params : SearchFuncLogParams
params = record {
  gid = pos 3;
  min_id = pos 0;
  max_id = pos 20;
  min_timestamp = pos 0;
  max_timestamp = pos 0;
  limit = pos 10;
  sort_key = sort_by_id;
  sort_order = descending_sort_order;
  sql = [];
}

func_call_search-to_param_map_example :
    func_call_search one_digit (λ k. get_param k (to_param_map one_digit params))
    ≡ by_simple_params (as_read params)
func_call_search-to_param_map_example =
    func_call_search-to_param_map one_digit one_digit-IsStrconv params (omega arith)
