-- ===== src/Storage/Index.antt =====
-- tracer/storage/index.go: the index of a log's records, by ID and by time. The file is read with
-- encoding/gob; what that gives is an argument.
pub mod Ranges
pub mod Updates
use goapptrace.Base.{
  ℕ, zero, suc, ◌-◌, ◌^◌, ◌≡◌, Bool, true, false, not, ◌||◌, List, [], ◌∷◌, ◌++◌, Option, none,
  some, Outcome, ok, panic, ◌>>=◌, or_panic, get_elem?, length, take, drop, if◌then◌else◌,
}
use goapptrace.Base.Int.{ℤ, pos, negsuc, ltb_ℤ}

pub record IndexRecord : Type 0 where
  pub min_id : ℤ
  pub max_id : ℤ
  pub min_start : ℤ
  pub max_start : ℤ
  pub min_end : ℤ
  pub max_end : ℤ

-- The records are nil until they are loaded.
pub record Index : Type 0 where
  pub read_only : Bool
  pub records : Option (List IndexRecord)

-- mustLoad: `file` is what Load reads, no record for a file that is not there in write mode, and a
-- panic for one that cannot be read. As the file stays as it is meanwhile, keeping what was read and
-- reading it again are the same.
unfoldable pub must_load : Outcome (List IndexRecord) → Index → Outcome (List IndexRecord)
must_load file idx = elim idx.records [ some rs ↦ ok rs | none ↦ file ]

abbrev pub with_records : List IndexRecord → Index → Index
with_records rs idx = record { read_only = idx.read_only; records = some rs }

-- records[i]; a negative i is out of range.
unfoldable pub get : Outcome (List IndexRecord) → ℤ → Index → Outcome IndexRecord
unfolding must_load
get file (pos i) idx = must_load file idx >>= λ rs. or_panic (get_elem? rs i)
get file (negsuc i) idx = must_load file idx >>= λ rs. panic

-- The Boolean is whether the error is nil: a read-only index is not changed.
unfoldable pub append : Outcome (List IndexRecord) → IndexRecord → Index → Outcome (Index × Bool)
unfolding must_load
append file r idx =
    if idx.read_only
    then ok (idx, false)
    else (must_load file idx >>= λ rs. ok (with_records (rs ++ (r ∷ [])) idx, true))

-- records[index_len(records)-1]
abbrev pub last_of : List IndexRecord → Outcome IndexRecord
last_of [] = panic
last_of (x ∷ []) = ok x
last_of (x ∷ y ∷ rs) = last_of (y ∷ rs)

-- records[index_len(records)-1] = r
abbrev pub set_last : IndexRecord → List IndexRecord → Outcome (List IndexRecord)
set_last r [] = panic
set_last r (x ∷ []) = ok (r ∷ [])
set_last r (x ∷ y ∷ rs) = set_last r (y ∷ rs) >>= λ zs. ok (x ∷ zs)

unfoldable pub last : Outcome (List IndexRecord) → Index → Outcome IndexRecord
unfolding must_load
last file idx = must_load file idx >>= last_of

unfoldable pub update_last :
    Outcome (List IndexRecord) → IndexRecord → Index → Outcome (Index × Bool)
unfolding must_load
update_last file r idx =
    if idx.read_only
    then ok (idx, false)
    else (must_load file idx >>= λ rs. set_last r rs >>= λ zs. ok (with_records zs idx, true))

unfoldable pub index_len : Outcome (List IndexRecord) → Index → Outcome ℕ
unfolding must_load
index_len file idx = must_load file idx >>= λ rs. ok (length rs)

abbrev pub is_not_overlap : ℤ → ℤ → ℤ → ℤ → Bool
is_not_overlap start_a end_a start_b end_b = ltb_ℤ end_a start_b || ltb_ℤ end_b start_a

abbrev pub is_overlap : ℤ → ℤ → ℤ → ℤ → Bool
is_overlap start_a end_a start_b end_b = not (is_not_overlap start_a end_a start_b end_b)

abbrev pub is_overlap_id : IndexRecord → ℤ → ℤ → Bool
is_overlap_id ir start end = is_overlap ir.min_id ir.max_id start end

abbrev pub is_overlap_time : IndexRecord → ℤ → ℤ → Bool
is_overlap_time ir start end = is_overlap ir.min_start ir.max_end start end

abbrev pub max_int64 : ℤ
max_int64 = pos (2 ^ 63 - 1)

abbrev pub min_int64 : ℤ
min_int64 = negsuc (2 ^ 63 - 1)

-- startId, endId and found.
pub record Range : Type 0 where
  pub start_id : ℤ
  pub end_id : ℤ
  pub found : Bool

abbrev pub widen : IndexRecord → Range → Range
widen ir r = record {
  start_id = if ltb_ℤ ir.min_id r.start_id then ir.min_id else r.start_id;
  end_id = if ltb_ℤ r.end_id ir.max_id then ir.max_id else r.end_id;
  found = true;
}

abbrev pub widen_if : Bool → IndexRecord → Range → Range
widen_if true ir r = widen ir r
widen_if false ir r = r

unfoldable pub scan : ℤ → ℤ → List IndexRecord → Range → Range
scan start end [] r = r
scan start end (ir ∷ rs) r = scan start end rs (widen_if (is_overlap_time ir start end) ir r)

abbrev pub no_range : Range
no_range = record { start_id = max_int64; end_id = min_int64; found = false }

unfoldable pub id_range_of : ℤ → ℤ → List IndexRecord → ℤ × ℤ
unfolding scan
id_range_of start end rs =
    let r = scan start end rs no_range in if r.found then (r.start_id, r.end_id) else (pos 0, pos 0)

unfoldable pub id_range_by_time : Outcome (List IndexRecord) → ℤ → ℤ → Index → Outcome (ℤ × ℤ)
unfolding must_load id_range_of
id_range_by_time file start end idx = must_load file idx >>= λ rs. ok (id_range_of start end rs)
