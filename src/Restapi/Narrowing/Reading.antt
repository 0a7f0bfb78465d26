-- ===== src/Restapi/Narrowing/Reading.antt =====
-- The stored calls that readFuncLog and filterFuncLog pass on.
use goapptrace.Base.{
  ℕ, zero, suc, ◌+◌, ◌-◌, ◌<◌, ◌≤◌, ◌||◌, ltb, ◌≡◌, refl, ◌∙◌, ap, arith, Bool, false, List, [],
  ◌∷◌, ◌++◌, some, Bool-cases, inl, inr, some-injective, get_elem?, take, drop, length,
}
use goapptrace.Base.Int.{ℤ, pos, negsuc, ◌≤ℤ◌, ◌<ℤ◌}
use goapptrace.Types.{FuncLog}
use goapptrace.Restapi.Sorting.{passing, filter_func_log}
use goapptrace.Restapi.Narrowing.{
  SearchFuncLogParams, given, has_bounds, is_filtered, filter_of, as_index, read_limit, from_id,
  read_func_log,
}

get_elem?-drop : (n i : ℕ) (xs : List FuncLog) → get_elem? (drop n xs) i ≡ get_elem? xs (n + i)
get_elem?-drop zero i xs = ap (get_elem? xs) (omega arith)
get_elem?-drop (suc n) i [] = refl
get_elem?-drop (suc n) i (x ∷ xs) =
    get_elem?-drop n i xs ∙ ap (get_elem? (x ∷ xs)) {x = suc (n + i)} (omega arith)

get_elem?-take : (n i : ℕ) (xs : List FuncLog) → i < n → get_elem? (take n xs) i ≡ get_elem? xs i
get_elem?-take zero i xs h = absurd (omega arith)
get_elem?-take (suc n) i [] h = refl
get_elem?-take (suc n) zero (x ∷ xs) h = refl
get_elem?-take (suc n) (suc i) (x ∷ xs) h = get_elem?-take n i xs (omega arith)

get_elem?-append :
    (i : ℕ) (xs ys : List FuncLog) (f : FuncLog)
    → get_elem? xs i ≡ some f
    → get_elem? (xs ++ ys) i ≡ some f
get_elem?-append i [] ys f e = ground arith
get_elem?-append zero (x ∷ xs) ys f e = e
get_elem?-append (suc i) (x ∷ xs) ys f e = get_elem?-append i xs ys f e

get_elem?-lt : (i : ℕ) (xs : List FuncLog) (f : FuncLog) → get_elem? xs i ≡ some f → i < length xs
get_elem?-lt i [] f e = ground arith
get_elem?-lt zero (x ∷ xs) f e = omega arith
get_elem?-lt (suc i) (x ∷ xs) f e = omega (arith, get_elem?-lt i xs f e)

-- A call of the list.
abbrev pub Has : List FuncLog → FuncLog → Type 0
Has fs f = (i : ℕ) × (get_elem? fs i ≡ some f)

passing-Has :
    (test : FuncLog → Bool) (i : ℕ) (fs : List FuncLog) (f : FuncLog)
    → get_elem? fs i ≡ some f
    → test f ≡ false
    → Has (passing test fs) f
passing-Has test i [] f e h = ground arith
passing-Has test zero (g ∷ gs) f e h = let same : g ≡ f = some-injective e in rw (same, h) (0, refl)
passing-Has test (suc i) (g ∷ gs) f e h =
    let (j, at) = passing-Has test i gs f e h in
    elim (Bool-cases (test g)) [ inl dropped ↦ rw dropped (j, at) | inr kept ↦ rw kept (suc j, at) ]

pub filter_func_log-Has :
    (p : SearchFuncLogParams) (fs : List FuncLog) (f : FuncLog)
    → Has fs f
    → is_filtered p f ≡ false
    → Has (filter_func_log (filter_of p) fs) f
unfolding filter_func_log filter_of
filter_func_log-Has p fs f (i, at) h = elim (Bool-cases (given p.gid || has_bounds p)) [
  | inl tested ↦ rw tested (passing-Has (is_filtered p) i fs f at h)
  | inr untested ↦ rw untested (i, at)
]

as_index-le : (lo : ℤ) (j : ℕ) → lo ≤ℤ pos j → as_index lo ≤ j
as_index-le (pos n) j h = omega arith
as_index-le (negsuc n) j h = omega arith

as_index-limit : (hi : ℤ) (n j : ℕ) → pos j <ℤ hi → j < n → j < as_index (read_limit hi n)
as_index-limit (negsuc m) n j h k = absurd (omega arith)
as_index-limit (pos m) n j h k = elim (Bool-cases (ltb n m)) [
  | inl e ↦ ground arith
  | inr e ↦ ground arith
]

-- The call of an ID from the lower bound on and below the upper one is read.
pub read_func_log-Has :
    (lo hi : ℤ) (j : ℕ) (store running : List FuncLog) (f : FuncLog)
    → lo ≤ℤ pos j
    → pos j <ℤ hi
    → get_elem? store j ≡ some f
    → Has (read_func_log lo hi store running) f
unfolding read_func_log
read_func_log-Has lo hi j store running f from below at =
    let first = as_index lo in
    let limit = as_index (read_limit hi (length store)) in
    let reached : first ≤ j = as_index-le lo j from in
    let inside : j < limit = as_index-limit hi (length store) j below (get_elem?-lt j store f at) in
    let front : get_elem? (take (limit - first) (drop first store)) (j - first) ≡ some f =
      get_elem?-take (limit - first) (j - first) (drop first store) (omega arith)
      ∙ get_elem?-drop first (j - first) store
      ∙ ap (get_elem? store) (omega arith)
      ∙ at in
    (
      j - first,
      get_elem?-append (j - first) (take (limit - first) (drop first store))
          (from_id (read_limit hi (length store)) running) f front,
    )
