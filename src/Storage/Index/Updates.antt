-- ===== src/Storage/Index/Updates.antt =====
-- How the changes of an index and its readings go together.
use goapptrace.Base.{
  ℕ, zero, suc, ◌+◌, ◌≡◌, refl, arith, Bool, true, false, List, [], ◌∷◌, ◌++◌, Option, none, some,
  ◌==◌, Outcome, ok, panic, ◌>>=◌, or_panic, get_elem?, length, length-append, if◌then◌else◌,
}
use goapptrace.Base.Int.{pos}
use goapptrace.Storage.Index.{
  IndexRecord, Index, must_load, with_records, get, append, last_of, set_last, last, update_last,
  index_len,
}

last_of-snoc : (rs : List IndexRecord) (r : IndexRecord) → last_of (rs ++ (r ∷ [])) ≡ ok r
last_of-snoc [] r = refl
last_of-snoc (x ∷ []) r = refl
last_of-snoc (x ∷ y ∷ rs) r = last_of-snoc (y ∷ rs) r

set_last-snoc :
    (rs : List IndexRecord) (a r : IndexRecord) → set_last r (rs ++ (a ∷ [])) ≡ ok (rs ++ (r ∷ []))
set_last-snoc [] a r = refl
set_last-snoc (x ∷ []) a r = refl
set_last-snoc (x ∷ y ∷ rs) a r = rw (set_last-snoc (y ∷ rs) a r)

get_elem?-snoc :
    (rs : List IndexRecord) (r : IndexRecord) (i : ℕ)
    → get_elem? (rs ++ (r ∷ [])) i ≡ (if i == length rs then some r else get_elem? rs i)
get_elem?-snoc [] r zero = refl
get_elem?-snoc [] r (suc i) = ground arith
get_elem?-snoc (x ∷ rs) r zero = ground arith
get_elem?-snoc (x ∷ rs) r (suc i) = ground (arith, get_elem?-snoc rs r i)

or_panic-if :
    (b : Bool) (r : IndexRecord) (o : Option IndexRecord)
    → or_panic (if b then some r else o) ≡ (if b then ok r else or_panic o)
or_panic-if true r o = refl
or_panic-if false r o = refl

abbrev pub index : Bool → Option (List IndexRecord) → Index
index read_only records = record { read_only = read_only; records = records }

append-update_last_of :
    (read_only : Bool) (records : Option (List IndexRecord)) (file : Outcome (List IndexRecord))
    (a r : IndexRecord)
    → let idx = index read_only records in
      (append file a idx >>= λ p. update_last file r p.0) ≡ append file r idx
unfolding append update_last must_load
append-update_last_of true records file a r = refl
append-update_last_of false (some rs) file a r = rw (set_last-snoc rs a r)
append-update_last_of false none (ok rs) a r = rw (set_last-snoc rs a r)
append-update_last_of false none panic a r = refl

module _ (file : Outcome (List IndexRecord)) where
  -- UpdateLast after Append changes the appended record alone: it is as if the other one had been
  -- appended. On a read-only index neither changes anything, and a file that cannot be read makes
  -- both panic.
  pub append-update_last :
      (a r : IndexRecord) (idx : Index)
      → (append file a idx >>= λ p. update_last file r p.0) ≡ append file r idx
  append-update_last a r idx = append-update_last_of idx.read_only idx.records file a r

  append-ok :
      (r : IndexRecord) (rs : List IndexRecord) (idx : Index)
      → idx.read_only ≡ false
      → must_load file idx ≡ ok rs
      → append file r idx ≡ ok (with_records (rs ++ (r ∷ [])) idx, true)
  unfolding append
  append-ok r rs idx w e = simp (w, e)

  -- After Append an index that is not read-only has one record more: Get gives the new one at the
  -- old length and elsewhere what it gave before, and Last gives the new one.
  pub append-get :
      (r : IndexRecord) (rs : List IndexRecord) (idx : Index)
      → idx.read_only ≡ false
      → must_load file idx ≡ ok rs
      → (idx' : Index) × (append file r idx ≡ ok (idx', true))
        × (index_len file idx' ≡ ok (length rs + 1))
        × (last file idx' ≡ ok r)
        × ((i : ℕ)
            → get file (pos i) idx' ≡ (if i == length rs then ok r else get file (pos i) idx))
  unfolding index_len last get must_load
  append-get r rs idx w e = (
    with_records (rs ++ (r ∷ [])) idx,
    append-ok r rs idx w e,
    rw (length-append rs (r ∷ [])),
    last_of-snoc rs r,
    λ i. rw (get_elem?-snoc rs r i, or_panic-if, e),
  )
