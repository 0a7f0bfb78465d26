-- ===== src/Examples/Files.antt =====
-- tracer/storage/index.go on an index of two records.
use goapptrace.Base.{◌≡◌, ◌⊎◌, refl, arith, false, List, [], ◌∷◌, none, ok}
use goapptrace.Base.Int.{pos}
use goapptrace.Storage.Index.{IndexRecord, Index, must_load, id_range_of}
use goapptrace.Storage.Index.Ranges.{NoOverlap, Covers, Some, id_range_of-least}

abbrev first : IndexRecord
first = record {
  min_id = pos 0;
  max_id = pos 9;
  min_start = pos 100;
  max_start = pos 180;
  min_end = pos 110;
  max_end = pos 200;
}

abbrev second : IndexRecord
second = record {
  min_id = pos 10;
  max_id = pos 19;
  min_start = pos 190;
  max_start = pos 280;
  min_end = pos 210;
  max_end = pos 300;
}

abbrev both : List IndexRecord
both = first ∷ second ∷ []

id_range_of-least_example :
    let (a, b) = id_range_of (pos 195) (pos 250) both in
    (NoOverlap (pos 195) (pos 250) both × (a ≡ pos 0) × (b ≡ pos 0))
    ⊎ (Covers (pos 195) (pos 250) a b both
        × Some (pos 195) (pos 250) (λ ir. ir.min_id ≡ a) both
        × Some (pos 195) (pos 250) (λ ir. ir.max_id ≡ b) both)
id_range_of-least_example = id_range_of-least (pos 195) (pos 250) both (omega arith)

abbrev unread : Index
unread = record { read_only = false; records = none }

must_load-unread : must_load (ok (first ∷ [])) unread ≡ ok (first ∷ [])
unfolding must_load
must_load-unread = refl
