-- ===== src/Storage/Store/RoundTrip.antt =====
-- A record that is read from a Store after one was written.
use goapptrace.Base.{
  ℕ, max, ◌+◌, ◌-◌, ◌*◌, ◌≤◌, ◌<◌, ◌≡◌, ◌≢◌, refl, sym, ap, subst, ◌∙◌, arith, List, Option, none,
  Outcome, ok, inl, inr, length, length-take, length-drop, drop, leb, not_leb→lt, Bool-cases,
  length-append, length-replicate, replicate,
}
use goapptrace.Base.Int.{pos}
use goapptrace.Encoding.Slices.{Marshal, Writes}
use goapptrace.Storage.Disk.{
  write_at, read_at, read_at-write_at, read_at-write_at_before, read_at-write_at_behind,
}
use goapptrace.Storage.WriteBuffer
use goapptrace.Storage.WriteBuffer.{Io}
use goapptrace.Storage.WriteBuffer.Records.{HasRoom}
use goapptrace.Storage.ReadBuffer.{drop_cache}
use goapptrace.Storage.ReadBuffer.Reads as BufferReads
use goapptrace.Storage.ReadBuffer.Reads.{IsSized}
use goapptrace.Storage.ReadBuffer.Cached.{IsCached}
use goapptrace.Storage.ReadBuffer.Seeks.{empty-IsCached}
use goapptrace.Storage.Store.{Store, StoreError, read_nolock, write_nolock}
use goapptrace.Storage.Store.Writes.{
  view, InRange, IsWritable, IsStored, padded_record, write_nolock-IsStored,
}
use goapptrace.Storage.Store.Reads.{IsReadable, IsFresh, read_nolock-IsExact}

-- A store that has been opened for reading and writing, between two operations.
pub record IsOpen (e : Store) : Type 0 where
  pub writable : IsWritable e
  pub readable : IsReadable e
  pub room : HasRoom e.wb

-- The places of two records do not overlap.
records_apart : (n i j : ℕ) → i < j → n * i + n ≤ n * j
records_apart n i j h = grind arith

module _ (e : Store) (v : IsOpen e) (idx : ℕ) (bytes : List ℕ) (q : Store × Option StoreError)
    (s : IsStored e idx bytes q) where
  sized_reader : IsSized e.record_size (drop_cache e.rb)
  sized_reader =
      let t : IsSized e.record_size e.rb = v.readable.sized in
      record { positive = t.positive; exact = t.exact; large = t.large; full = t.full }

  pub stored-IsReadable : IsReadable q.0
  stored-IsReadable = record {
    synced = s.writable.synced;
    sized = rw (s.same_size, s.same_reader) sized_reader;
    cached = subst (IsCached (view q.0)) (sym s.same_reader) (empty-IsCached (view q.0) e.rb);
  }

  pub stored-IsOpen : q.1 ≡ none → IsOpen q.0
  stored-IsOpen h = record {
    writable = s.writable;
    readable = stored-IsReadable;
    room = (s.stored h).1;
  }

  module _ (size : length bytes ≡ e.record_size) (h : q.1 ≡ none) where
    -- The record itself.
    pub stored-same : read_at (view q.0) (e.record_size * idx) e.record_size ≡ bytes
    stored-same =
        ap (λ f. read_at f (e.record_size * idx) e.record_size) (s.stored h).0
        ∙ ap (read_at (write_at (view e) (e.record_size * idx) bytes) (e.record_size * idx))
            (sym size)
        ∙ read_at-write_at (view e) (e.record_size * idx) bytes

    pub stored_inside : e.record_size * idx + e.record_size ≤ length (view q.0)
    stored_inside = omega (
      arith,
      ap length stored-same,
      size,
      v.readable.sized.positive,
      length-take e.record_size (drop (e.record_size * idx) (view q.0)),
      length-drop (e.record_size * idx) (view q.0),
    )

    -- Another record.
    pub stored-other :
        (j : ℕ)
        → j ≢ idx
        → e.record_size * j + e.record_size ≤ length (view e)
        → read_at (view q.0) (e.record_size * j) e.record_size
          ≡ read_at (view e) (e.record_size * j) e.record_size
    stored-other j other inside =
        ap (λ f. read_at f (e.record_size * j) e.record_size) (s.stored h).0
        ∙ elim (Bool-cases (leb idx j)) [
          | inl e' ↦
              let apart : e.record_size * idx + e.record_size ≤ e.record_size * j =
                records_apart e.record_size idx j (ground (arith, other)) in
              read_at-write_at_behind (view e) (e.record_size * idx) (e.record_size * j)
                e.record_size bytes (omega (arith, size))
          | inr e' ↦
              read_at-write_at_before (view e) (e.record_size * idx) (e.record_size * j)
                e.record_size bytes (records_apart e.record_size j idx (not_leb→lt idx j e')) inside
        ]

-- A write that succeeds: it leaves an open store with the bytes at the index, where `a` is read back.
pub record IsKept {A : Type 0} (e : Store) (idx : ℕ) (decode : List ℕ → Outcome A) (a : A)
    (bytes : List ℕ) (o : Outcome (Store × Option StoreError)) : Type 0 where
  pub after : Store
  pub returned : o ≡ ok (after, none)
  pub still_open : IsOpen after
  pub counted : after.records ≡ max e.records (idx + 1)
  pub placed : view after ≡ write_at (view e) (e.record_size * idx) bytes
  pub read_back :
      (q : Store) × (read_nolock WriteBuffer.works BufferReads.works (pos idx) decode after
        ≡ ok (q, inl a))
      × (view q ≡ view after)

module _ {A : Type 0} (e : Store) (v : IsOpen e) (idx : ℕ) (encode : Marshal)
    (decode : List ℕ → Outcome A) (a : A) (bytes : List ℕ) (writes : Writes encode bytes)
    (reads : decode (padded_record e.record_size bytes) ≡ ok a)
    (fits : length bytes ≤ e.record_size) (fresh : IsFresh e (e.record_size * idx))
    (range : InRange e idx) where
  abbrev whole : List ℕ
  whole = padded_record e.record_size bytes

  length-whole : length whole ≡ e.record_size
  length-whole = omega (
    arith,
    length-append bytes (replicate (e.record_size - length bytes) 0),
    length-replicate {A = ℕ} (e.record_size - length bytes) 0,
  )

  read_stored :
      (q : Store × Option StoreError) (s : IsStored e idx whole q)
      → q.1 ≡ none
      → (q' : Store) × (read_nolock WriteBuffer.works BufferReads.works (pos idx) decode q.0
          ≡ ok (q', inl a))
        × (view q' ≡ view q.0)
  read_stored q s h =
      let fresh' : IsFresh q.0 (q.0.record_size * idx) =
        rw (s.same_reader, s.same_offset, s.same_size) fresh in
      let inside : q.0.record_size * idx + q.0.record_size ≤ length (view q.0) =
        rw (s.same_size) (stored_inside e v idx whole q s length-whole h) in
      let found : decode (read_at (view q.0) (q.0.record_size * idx) q.0.record_size) ≡ ok a =
        rw (s.same_size, stored-same e v idx whole q s length-whole h) reads in
      let (q', exact, same, same_size, readable) =
        read_nolock-IsExact q.0 (stored-IsReadable e v idx whole q s) idx decode a fresh' inside
          found (rw (s.same_size) range) in
      (q', exact, same)

  pub write_nolock-IsKept :
      IsKept e idx decode a whole
        (write_nolock WriteBuffer.works WriteBuffer.works (pos idx) encode e)
  write_nolock-IsKept =
      let (q, returned, success, s) =
        write_nolock-IsStored e v.writable v.room idx encode bytes writes fits WriteBuffer.works
          WriteBuffer.works range in
      let h : q.1 ≡ none = success refl refl in
      record {
        after = q.0;
        returned = returned ∙ ap (λ err. ok (q.0, err)) h;
        still_open = stored-IsOpen e v idx whole q s h;
        counted = (s.stored h).2;
        placed = (s.stored h).0;
        read_back = read_stored q s h;
      }
