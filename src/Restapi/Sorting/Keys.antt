-- ===== src/Restapi/Sorting/Keys.antt =====
-- What funcCallSearchBySimpleParams sends for its sort key and order.
use goapptrace.Base.{Bool, ℕ, suc, min, ◌+◌, ◌<◌, ◌≤◌, ◌^◌, ◌≡◌, refl, List, ok, drop, arith, ap}
use mathlib.Core.Path.{fun_ext}
use goapptrace.Base.Int.{ℤ, pos, negsuc, ltb_ℤ, leb_ℤ}
use goapptrace.Types.{FuncLog}
use goapptrace.Restapi.Sorting.{
  SortKey, sort_by_id, sort_by_start_time, sort_by_end_time, no_sort_key, SortOrder, no_sort_order,
  ascending_sort_order, descending_sort_order, Less, swapped, Sorts, SortFn, sort_with, sort_fn,
  sort_and_limit,
}
use goapptrace.Restapi.Sorting.Smallest.{count, IsSorted, IsSorts, sort_and_limit-smallest}

-- The field that a key names.
abbrev pub key_of : SortKey → FuncLog → ℤ
key_of sort_by_id f = f.id
key_of sort_by_start_time f = f.start_time
key_of sort_by_end_time f = f.end_time
key_of no_sort_key f = pos 0

-- It turns the order of the integers around.
abbrev pub mirrored : ℤ → ℤ
mirrored (pos n) = negsuc n
mirrored (negsuc n) = pos n

abbrev pub rank_of : SortKey → SortOrder → FuncLog → ℤ
rank_of key no_sort_order f = pos 0
rank_of key ascending_sort_order f = key_of key f
rank_of key descending_sort_order f = mirrored (key_of key f)

abbrev pub by_rank : (FuncLog → ℤ) → Less
by_rank rank f g = ltb_ℤ (rank f) (rank g)

mirrored_lt : (a b : ℤ) → ltb_ℤ b a ≡ ltb_ℤ (mirrored a) (mirrored b)
mirrored_lt (pos m) (pos n) = ground arith
mirrored_lt (pos m) (negsuc n) = ground arith
mirrored_lt (negsuc m) (pos n) = ground arith
mirrored_lt (negsuc m) (negsuc n) = ground arith

pub by_mirrored : (rank : FuncLog → ℤ) → swapped (by_rank rank) ≡ by_rank (λ f. mirrored (rank f))
by_mirrored rank = fun_ext (λ f. fun_ext (λ g. mirrored_lt (rank f) (rank g)))

sort_fn_lem :
    (key : SortKey) (order : SortOrder)
    → ¬ (key ≡ no_sort_key)
    → ¬ (order ≡ no_sort_order)
    → sort_fn key order ≡ ok (sort_with (by_rank (rank_of key order)))
unfolding sort_fn
sort_fn_lem sort_by_id ascending_sort_order has_key has_order = refl
sort_fn_lem sort_by_start_time ascending_sort_order has_key has_order = refl
sort_fn_lem sort_by_end_time ascending_sort_order has_key has_order = refl
sort_fn_lem sort_by_id descending_sort_order has_key has_order =
    ap (λ less. ok (sort_with less)) (by_mirrored (λ f. f.id))
sort_fn_lem sort_by_start_time descending_sort_order has_key has_order =
    ap (λ less. ok (sort_with less)) (by_mirrored (λ f. f.start_time))
sort_fn_lem sort_by_end_time descending_sort_order has_key has_order =
    ap (λ less. ok (sort_with less)) (by_mirrored (λ f. f.end_time))
sort_fn_lem no_sort_key order has_key has_order = absurd (has_key refl)
sort_fn_lem key no_sort_order has_key has_order = absurd (has_order refl)

-- Let the functions of container/heap and sort do what their documentation says for an order by a
-- number. With a sort key, an order and a positive number of rows, whose sum with the offset fits an
-- int64, sortAndLimit does not panic. It sends, without its first `offset` calls, a list that is sorted
-- by the key in the given order, in which no call occurs more often than in the input, and of whose
-- calls as many stand up to each place of that order as of the calls of the input, but at most
-- `offset + rows`: the first `offset + rows` calls of the input in that order.
pub sort_and_limit-smallest_of :
    (lib : Sorts) (laws : (rank : FuncLog → ℤ) → IsSorts lib (by_rank rank)) (key : SortKey)
    (order : SortOrder) (offset n : ℕ) (evts : List FuncLog)
    → ¬ (key ≡ no_sort_key)
    → ¬ (order ≡ no_sort_order)
    → offset + suc n < 2 ^ 63
    → (sort : SortFn) × (first : List FuncLog) × (sort_fn key order ≡ ok sort)
      × IsSorted (by_rank (rank_of key order)) first
      × ((t : ℤ)
          → count (λ f. leb_ℤ (rank_of key order f) t) first
            ≡ min (count (λ f. leb_ℤ (rank_of key order f) t) evts) (offset + suc n))
      × ((p : FuncLog → Bool) → count p first ≤ count p evts)
      × (sort_and_limit lib sort offset (pos (suc n)) evts ≡ ok (drop offset first))
sort_and_limit-smallest_of lib laws key order offset n evts has_key has_order fits =
    let rank = rank_of key order in
    let (first, sorted, counts, of_input, sent) =
      sort_and_limit-smallest lib (by_rank rank) rank (λ f g. refl) (laws rank) offset n evts in
    (
      sort_with (by_rank rank),
      first,
      sort_fn_lem key order has_key has_order,
      sorted,
      counts,
      of_input,
      sent,
    )
