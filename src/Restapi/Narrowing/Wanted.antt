-- ===== src/Restapi/Narrowing/Wanted.antt =====
-- The calls that pass the test of a search without SQL, and the records of the index that have them.
use goapptrace.Base.{◌≡◌, refl, arith, Bool, true, false, not, ◌&&◌, if◌then◌else◌}
use goapptrace.Base.Int.{ℤ, pos, ltb_ℤ, ◌==ℤ◌, ◌≤ℤ◌, IsInt64}
use goapptrace.Types.{FuncLog}
use goapptrace.Storage.Index.{IndexRecord, is_overlap, max_int64}
use goapptrace.Restapi.Narrowing.{
  SearchFuncLogParams, given, with_all_ids, with_ids, overlaps, is_filtered,
}

-- The index record has the ID and the times of the call.
abbrev pub Records : IndexRecord → FuncLog → Type 0
Records ir evt =
    (ir.min_id ≤ℤ evt.id)
    × (evt.id ≤ℤ ir.max_id)
    × (ir.min_start ≤ℤ evt.start_time)
    × (evt.start_time ≤ℤ evt.end_time)
    × (evt.end_time ≤ℤ ir.max_end)

pub and_false : (b : Bool) → b && false ≡ false
and_false b = ground arith

five_tests :
    (a b c d e : Bool)
    → (if a
        then true
        else if b
        then true
        else if c
        then true
        else if d
        then true
        else if e
        then true
        else false)
      ≡ false
    → (a ≡ false) × (b ≡ false) × (c ≡ false) × (d ≡ false) × (e ≡ false)
five_tests false false false false false h = (refl, refl, refl, refl, refl)
five_tests true b c d e h = ground arith
five_tests false true c d e h = ground arith
five_tests false false true d e h = ground arith
five_tests false false false true e h = ground arith
five_tests false false false false true h = ground arith

-- What is true of a call that passes.
abbrev pub IsWanted : SearchFuncLogParams → FuncLog → Type 0
IsWanted p evt =
    (given p.gid && not (evt.gid ==ℤ p.gid) ≡ false)
    × (given p.min_id && ltb_ℤ evt.id p.min_id ≡ false)
    × (given p.max_id && ltb_ℤ p.max_id evt.id ≡ false)
    × (given p.min_timestamp
          && (ltb_ℤ evt.start_time p.min_timestamp && ltb_ℤ evt.end_time p.min_timestamp)
        ≡ false)
    × (given p.max_timestamp && ltb_ℤ p.max_timestamp evt.start_time ≡ false)

pub passes-IsWanted :
    (p : SearchFuncLogParams) (evt : FuncLog) → is_filtered p evt ≡ false → IsWanted p evt
unfolding is_filtered
passes-IsWanted p evt h = five_tests _ _ _ _ _ h

pub passes_of_wanted :
    (p : SearchFuncLogParams) (evt : FuncLog) → IsWanted p evt → is_filtered p evt ≡ false
unfolding is_filtered
passes_of_wanted p evt (a, b, c, d, e) = rw (a, b, c, d, e) refl

overlaps_id :
    (lo hi a b x : ℤ)
    → IsInt64 x
    → pos 0 ≤ℤ x
    → a ≤ℤ x
    → x ≤ℤ b
    → given lo && ltb_ℤ x lo ≡ false
    → given hi && ltb_ℤ hi x ≡ false
    → is_overlap a b
        (if ltb_ℤ lo (pos 0) then pos 0 else lo)
        (if ltb_ℤ hi (pos 0) then max_int64 else hi)
      ≡ true
overlaps_id lo hi a b x small natural ax xb from to = ground arith

overlaps_time :
    (lo hi a b x y : ℤ)
    → a ≤ℤ x
    → x ≤ℤ y
    → y ≤ℤ b
    → pos 0 ≤ℤ hi
    → pos 0 ≤ℤ y
    → given lo && (ltb_ℤ x lo && ltb_ℤ y lo) ≡ false
    → given hi && ltb_ℤ hi x ≡ false
    → is_overlap a b lo hi ≡ true
overlaps_time lo hi a b x y ax xy yb until natural from to = ground arith

pub recorded-overlaps :
    (p : SearchFuncLogParams) (ir : IndexRecord) (evt : FuncLog)
    → IsInt64 evt.id
    → pos 0 ≤ℤ evt.id
    → pos 0 ≤ℤ evt.end_time
    → Records ir evt
    → pos 0 ≤ℤ p.max_timestamp
    → IsWanted p evt
    → overlaps (with_all_ids p) ir ≡ true
recorded-overlaps p ir evt small id ended (a, b, c, d, e) until (_, from, to, after, before) =
    rw
      (
        overlaps_id p.min_id p.max_id ir.min_id ir.max_id evt.id small id a b from to,
        overlaps_time p.min_timestamp p.max_timestamp ir.min_start ir.max_end evt.start_time
            evt.end_time c d e until ended after before,
      )
      refl

pub narrowed-IsWanted :
    (p : SearchFuncLogParams) (lo hi : ℤ) (evt : FuncLog)
    → lo ≤ℤ evt.id
    → evt.id ≤ℤ hi
    → IsWanted p evt
    → IsWanted (with_ids lo hi (with_all_ids p)) evt
narrowed-IsWanted p lo hi evt from to (g, a, b, c, d) = (g, ground arith, ground arith, c, d)
