-- ===== src/Storage/Store/Writes.antt =====
-- What WriteNolock does to the records of a Store.
use goapptrace.Base.{
  ℕ, max, ◌+◌, ◌-◌, ◌*◌, ◌%◌, ◌^◌, ◌<◌, ◌≤◌, ◌≡◌, ◌≢◌, refl, sym, ap, ◌∙◌, arith, Bool, true, false,
  List, Option, none, some, ok, Option-cases, ◌⊎◌, inl, inr, le→leb, if◌then◌else◌, length,
  length-append, length-drop, length-replicate, subst, take, drop, take-append_length, take-length,
  replicate, ◌++◌, ◌>>=◌,
}
use goapptrace.Base.Int.{pos, ltb_ℤ, incr_int64, incr_int64-pos}
use goapptrace.Encoding.Slices.{Marshal, Writes}
use goapptrace.Storage.Disk.{write_at}
use goapptrace.Storage.WriteBuffer
use goapptrace.Storage.WriteBuffer.{WriteBuffer, FileWriter, Io, works, fill_slice}
use goapptrace.Storage.WriteBuffer.Contents.{contents, IsSynced}
use goapptrace.Storage.WriteBuffer.Records.{
  HasRoom, free_slice, length-free_slice, filled, fill_slice-ok, IsWritten, write-IsWritten,
  longer-IsSynced, write-works,
}
use goapptrace.Storage.WriteBuffer.Seeks.{IsSought, seek-IsSought, seek-works}
use goapptrace.Storage.ReadBuffer.{drop_cache}
use goapptrace.Storage.Store.{
  Store, StoreError, err_write, padded, position, write_record, count_written, write_nolock,
}

-- The bytes of the file, once the buffer is flushed.
abbrev pub view : Store → List ℕ
view e = contents e.wb e.file

-- A store that has been opened for writing, between two operations.
pub record IsWritable (e : Store) : Type 0 where
  pub open_still : e.closed ≡ false
  pub for_writing : e.read_only ≡ false
  pub record_max : e.wb.max_write_size ≡ e.record_size
  pub synced : IsSynced e.wb e.file

-- The end of the record of an index fits an int64, and so does the next index.
abbrev pub InRange : Store → ℕ → Type 0
InRange e idx = (e.record_size * idx + e.record_size < 2 ^ 63) × (idx + 1 < 2 ^ 63)

pub position-InRange :
    (e : Store) (idx : ℕ) → InRange e idx → position (pos idx) e ≡ e.record_size * idx
position-InRange e idx h = let same : idx % 2 ^ 64 ≡ idx = omega arith in rw same (omega arith)

-- A record of `n` bytes: zeros follow those that are encoded.
abbrev pub padded_record : ℕ → List ℕ → List ℕ
padded_record n bytes = bytes ++ replicate (n - length bytes) 0

padded-Writes :
    (encode : Marshal) (bytes buf : List ℕ)
    → Writes encode bytes
    → length bytes ≤ length buf
    → padded encode buf ≡ ok (padded_record (length buf) bytes, length bytes)
unfolding padded
padded-Writes encode bytes buf w h =
    let rest : List ℕ = drop (length bytes) buf in
    let total : length (bytes ++ rest) ≡ length buf =
      omega (arith, length-append bytes rest, length-drop (length bytes) buf) in
    rw (w buf h, total, le→leb (length bytes) (length buf) h, take-append_length) refl

-- What a write of the record `bytes` at the index leaves, with the room it needs or an error.
pub record IsStored (e : Store) (idx : ℕ) (bytes : List ℕ) (r : Store × Option StoreError)
    : Type 0 where
  pub writable : IsWritable r.0
  pub same_size : r.0.record_size ≡ e.record_size
  pub same_reader : r.0.rb ≡ drop_cache e.rb
  pub same_offset : r.0.r_offset ≡ e.r_offset
  pub stored :
      r.1 ≡ none
      → (view r.0 ≡ write_at (view e) (e.record_size * idx) bytes)
        × HasRoom r.0.wb
        × (r.0.records ≡ max e.records (idx + 1))
  pub refused :
      r.1 ≢ none
      → (r.1 ≡ some err_write)
        × (r.0.records ≡ e.records)
        × ((view r.0 ≡ view e) ⊎ (view r.0 ≡ write_at (view e) (e.record_size * idx) bytes))

abbrev Buffers : Type 0
Buffers = WriteBuffer × FileWriter × Bool

module _ (e : Store) (v : IsWritable e) (idx : ℕ) (bytes : List ℕ) where
  abbrev dropped : Store
  dropped = record e { rb = drop_cache e.rb }

  -- The seek fails.
  unsought-IsStored :
      (r : Buffers)
      → IsSought e.wb e.file (e.record_size * idx) r
      → IsStored e idx bytes (record dropped { wb = r.0; file = r.1 }, some err_write)
  unsought-IsStored r s = record {
    writable = record {
      open_still = v.open_still;
      for_writing = v.for_writing;
      record_max = s.same_max ∙ v.record_max;
      synced = s.synced;
    };
    same_size = refl;
    same_reader = refl;
    same_offset = refl;
    stored = λ h. cc;
    refused = λ h. (refl, refl, inl s.kept);
  }

  module _ (wb : WriteBuffer) (file : FileWriter)
      (s : IsSought e.wb e.file (e.record_size * idx) (wb, file, true)) where
    view-count_written :
        (r : Buffers)
        → IsWritten wb file bytes e.record_size r
        → contents r.0 r.1 ≡ write_at (view e) (e.record_size * idx) bytes
    view-count_written r w = w.extended ∙ rw (s.kept, s.reached refl) refl

    count_written-IsWritable :
        (r : Buffers)
        → IsWritten wb file bytes e.record_size r
        → (n : ℕ) → IsWritable (record dropped { wb = r.0; file = r.1; records = n })
    count_written-IsWritable r w n = record {
      open_still = v.open_still;
      for_writing = v.for_writing;
      record_max = w.same_max ∙ s.same_max ∙ v.record_max;
      synced = w.synced;
    }

    count_written-IsStored :
        (r : Buffers)
        → IsWritten wb file bytes e.record_size r
        → IsStored e idx bytes (count_written (pos (idx + 1)) dropped r)
    count_written-IsStored (wb', file', false) w = record {
      writable = count_written-IsWritable _ w e.records;
      same_size = refl;
      same_reader = refl;
      same_offset = refl;
      stored = λ h. cc;
      refused = λ h. (refl, refl, inr (view-count_written _ w));
    }
    count_written-IsStored (wb', file', true) w = record {
      writable =
          count_written-IsWritable _ w
            (if ltb_ℤ (pos e.records) (pos (idx + 1)) then idx + 1 else e.records);
      same_size = refl;
      same_reader = refl;
      same_offset = refl;
      stored = λ h. (view-count_written _ w, w.more_room refl, ground arith);
      refused = λ h. absurd (h refl);
    }

some-ne-none {ℓ} : {A : Type ℓ} {a : A} → some a ≢ none
some-ne-none h = cc

-- Neither early return is taken.
unguarded {ℓ} :
    {A : Type ℓ} (x y z : A) (closed read_only : Bool)
    → closed ≡ false
    → read_only ≡ false
    → (if closed then x else if read_only then y else z) ≡ z
unguarded x y z closed read_only h k = rw (h, k) refl

module _ (e : Store) (v : IsWritable e) (room : HasRoom e.wb) (idx : ℕ) (encode : Marshal)
    (bytes : List ℕ) (writes : Writes encode bytes) (fits : length bytes ≤ e.record_size) where
  abbrev whole_record : List ℕ
  whole_record = padded_record e.record_size bytes

  abbrev Result : Type 0
  Result = Store × Option StoreError

  length-whole_record : length whole_record ≡ e.record_size
  length-whole_record = omega (
    arith,
    length-append bytes (replicate (e.record_size - length bytes) 0),
    length-replicate {A = ℕ} (e.record_size - length bytes) 0,
  )

  take-whole_record : take e.record_size whole_record ≡ whole_record
  take-whole_record =
      ap (λ n. take n whole_record) (sym length-whole_record) ∙ take-length whole_record

  written_works :
      (r : Buffers)
      → r.2 ≡ true
      → (count_written (pos (idx + 1)) (dropped e v idx bytes) r).1 ≡ none
  written_works (wb, file, false) h = cc
  written_works (wb, file, true) h = refl

  write_record-IsStored :
      (io : Io) (r : Buffers)
      → IsSought e.wb e.file (e.record_size * idx) r
      → (q : Result) × (write_record io (pos (idx + 1)) encode (dropped e v idx bytes) r ≡ ok q)
        × (r.2 ≡ true → io ≡ works → q.1 ≡ none)
        × IsStored e idx whole_record q
  unfolding write_record
  write_record-IsStored io (wb, file, false) s =
      (_, refl, λ h k. cc, unsought-IsStored e v idx whole_record (wb, file, false) s)
  write_record-IsStored io (wb, file, true) s =
      let there : HasRoom wb = s.room room in
      let free : List ℕ = free_slice wb file s.synced there in
      let size : length free ≡ e.record_size =
        length-free_slice wb file s.synced there ∙ s.same_max ∙ v.record_max in
      let exact : wb.max_write_size ≡ e.record_size = s.same_max ∙ v.record_max in
      let slice : padded encode free ≡ ok (whole_record, length bytes) =
        padded-Writes encode bytes free writes (omega (arith, size))
        ∙ ap (λ n. ok (padded_record n bytes, length bytes)) size in
      let full : length whole_record ≡ wb.max_write_size = length-whole_record ∙ sym exact in
      let (r, returned, w) =
        write-IsWritten wb file s.synced there whole_record full e.record_size
          (omega (arith, exact)) io in
      let w' : IsWritten wb file whole_record e.record_size r =
        subst (λ l. IsWritten wb file l e.record_size r) take-whole_record w in
      (
        count_written (pos (idx + 1)) (dropped e v idx bytes) r,
        rw
            (
              fill_slice-ok wb file s.synced there whole_record full (padded encode) (length bytes)
                  slice,
              returned,
            )
            refl,
        λ _ h. written_works r (
            write-works (filled wb file s.synced there whole_record full) file e.record_size
              (longer-IsSynced wb file s.synced there whole_record full e.record_size
                (omega (arith, exact)))
              r
              (subst
                (λ i.
                  WriteBuffer.write i e.record_size
                    (filled wb file s.synced there whole_record full) file
                  ≡ ok r)
                h returned)),
        count_written-IsStored e v idx whole_record wb file s r w',
      )

  at_index :
      (seeking writing : Io)
      → InRange e idx
      → (WriteBuffer.seek seeking (position (pos idx) e) e.wb e.file >>= λ r.
          write_record writing (incr_int64 (pos idx)) encode (dropped e v idx bytes) r)
        ≡ (WriteBuffer.seek seeking (e.record_size * idx) e.wb e.file >>= λ r.
            write_record writing (pos (idx + 1)) encode (dropped e v idx bytes) r)
  at_index seeking writing range =
      rw (position-InRange e idx range, incr_int64-pos idx range.1) refl

  pub write_nolock-IsStored :
      (seeking writing : Io)
      → InRange e idx
      → (q : Result) × (write_nolock seeking writing (pos idx) encode e ≡ ok q)
        × (seeking ≡ works → writing ≡ works → q.1 ≡ none)
        × IsStored e idx whole_record q
  unfolding write_nolock
  write_nolock-IsStored seeking writing range =
      let (r, returned, s) = seek-IsSought e.wb e.file v.synced (e.record_size * idx) seeking in
      let (q, stored, works_too, p) = write_record-IsStored writing r s in
      (
        q,
        unguarded _ _ _ e.closed e.read_only v.open_still v.for_writing
            ∙ at_index seeking writing range
            ∙ ap
                (λ o.
                  o >>= λ r. write_record writing (pos (idx + 1)) encode (dropped e v idx bytes) r)
                returned
            ∙ stored,
        λ h. works_too (
            seek-works e.wb e.file v.synced (e.record_size * idx) r (
              subst (λ i. WriteBuffer.seek i (e.record_size * idx) e.wb e.file ≡ ok r) h returned)),
        p,
      )

  -- What a WriteNolock does: it writes the record and counts it, or returns an error, with which the
  -- record may be written or not.
  abbrev pub Outcomes : Store × Option StoreError → Type 0
  Outcomes q =
      ((q.1 ≡ none)
        × (view q.0 ≡ write_at (view e) (e.record_size * idx) whole_record)
        × HasRoom q.0.wb
        × (q.0.records ≡ max e.records (idx + 1)))
      ⊎ ((q.1 ≡ some err_write)
          × (q.0.records ≡ e.records)
          × ((view q.0 ≡ view e)
              ⊎ (view q.0 ≡ write_at (view e) (e.record_size * idx) whole_record)))

  stored-Outcomes : (q : Store × Option StoreError) → IsStored e idx whole_record q → Outcomes q
  stored-Outcomes q s = elim (Option-cases q.1) [
    | inl success ↦
        inl (let (placed, room', counted) = s.stored success in (success, placed, room', counted))
    | inr (err, failure) ↦ inr (s.refused (λ h. some-ne-none (sym failure ∙ h)))
  ]

  -- On an open, writable store whose buffer has the room for one more record, as it has unless a flush
  -- has failed, WriteNolock of a record that encodes to at most RecordSize bytes, at an index that is
  -- not negative and at which the record ends below 2^63, does not panic, whichever seeks and writes of
  -- the file fail in it. It keeps the invariant of the buffer, and either returns no error, and then the file, once
  -- the buffer is flushed, has at its index the record filled up with zeros and nothing else is
  -- changed, there is room for one more record, and the count is at least idx + 1; or it returns the error,
  -- and then the count is the old one and the file, once flushed, has the record or is as before.
  pub write_nolock-outcome :
      (seeking writing : Io)
      → InRange e idx
      → (q : Store × Option StoreError) × (write_nolock seeking writing (pos idx) encode e ≡ ok q)
        × IsWritable q.0
        × Outcomes q
  write_nolock-outcome seeking writing range =
      let (q, returned, success, s) = write_nolock-IsStored seeking writing range in
      (q, returned, s.writable, stored-Outcomes q s)
