-- ===== src/Storage/Store/Reads.antt =====
-- What ReadNolock returns of the records of a Store.
use goapptrace.Base.{
  ℕ, ◌+◌, ◌*◌, ◌≤◌, ◌≡◌, refl, sym, ap, subst, ◌∙◌, arith, Bool, true, false, List, Outcome, ok,
  ◌⊎◌, inl, length, ◌>>=◌,
}
use goapptrace.Storage.Disk.{read_at}
use goapptrace.Storage.WriteBuffer
use goapptrace.Storage.WriteBuffer.{WriteBuffer, FileWriter, Io, at_pos}
use goapptrace.Storage.WriteBuffer.Contents.{IsSynced, IsFlushed, flush-IsFlushed, flush-works}
use goapptrace.Storage.ReadBuffer
use goapptrace.Storage.ReadBuffer.{ReadBuffer, drop_cache}
use goapptrace.Storage.ReadBuffer.Reads.{IsSized}
use goapptrace.Storage.ReadBuffer.Reads as BufferReads
use goapptrace.Storage.ReadBuffer.Cached.{IsCached, IsExactRead, read-IsExactRead}
use goapptrace.Storage.ReadBuffer.Seeks.{IsPlaced, seek-IsPlaced}
use goapptrace.Storage.Store.{Store, StoreError, read_nolock, read_flushed}
use goapptrace.Storage.Store.Writes.{view, InRange, position-InRange}
use goapptrace.Base.Int.{pos}

-- A store whose caches agree with its file.
pub record IsReadable (e : Store) : Type 0 where
  pub synced : IsSynced e.wb e.file
  pub sized : IsSized e.record_size e.rb
  pub cached : IsCached (view e) e.rb

-- The reader's file is where the buffer believes it to be, if it believes that this is `pos`.
abbrev pub IsFresh : Store → ℕ → Type 0
IsFresh e p = at_pos e.rb.rpos p ≡ true → e.r_offset ≡ p

module _ {A : Type 0} (e : Store) (v : IsReadable e) (idx : ℕ) (decode : List ℕ → Outcome A)
    (a : A) where
  abbrev position : ℕ
  position = e.record_size * idx

  module _ (fresh : IsFresh e position) (inside : position + e.record_size ≤ length (view e))
      (decode_read : decode (read_at (view e) position e.record_size) ≡ ok a) where
    abbrev IsExact : Outcome (Store × (A ⊎ StoreError)) → Type 0
    IsExact o =
        (q : Store) × (o ≡ ok (q, inl a))
        × (view q ≡ view e)
        × (q.record_size ≡ e.record_size)
        × IsReadable q

    read_flushed-IsExact :
        (r : WriteBuffer × FileWriter × Bool)
        → IsFlushed e.wb e.file r
        → r.2 ≡ true
        → IsExact (read_flushed BufferReads.works position decode e r)
    unfolding read_flushed
    read_flushed-IsExact (wb, file, false) f h = cc
    read_flushed-IsExact (wb, file, true) f h =
        let p : IsPlaced (view e) e.record_size position e.rb (ReadBuffer.seek position e.rb) =
          seek-IsPlaced (view e) e.record_size position e.rb in
        let b : ReadBuffer = ReadBuffer.seek position e.rb in
        let here : IsFresh (record e { rb = b }) b.pos = rw (p.same_rpos, p.there) fresh in
        let exact : IsExactRead (view e) e.record_size b e.r_offset =
          read-IsExactRead (view e) e.record_size b e.r_offset (p.sized v.sized) (p.cached v.cached)
            here (omega (arith, p.there)) in
        let same : file.content ≡ view e = (f.emptied refl).1 in
        let found : decode (read_at (view e) b.pos e.record_size) ≡ ok a =
          rw (p.there) decode_read in
        (
          record e { wb = wb; file = file; rb = exact.after; r_offset = exact.after_offset },
          rw (same, exact.returned, found) refl,
          f.kept,
          refl,
          record {
            synced = f.synced;
            sized = exact.sized;
            cached = subst (λ l. IsCached l exact.after) (sym f.kept) exact.cached;
          },
        )

    pub read_nolock-IsExact :
        InRange e idx → IsExact (read_nolock WriteBuffer.works BufferReads.works (pos idx) decode e)
    unfolding read_nolock
    read_nolock-IsExact range =
        let (r, returned, f) = flush-IsFlushed e.wb e.file v.synced WriteBuffer.works in
        let flushed : r.2 ≡ true = flush-works e.wb e.file v.synced r returned in
        let (q, exact, same_view, same_size, readable) = read_flushed-IsExact r f flushed in
        (
          q,
          ap
                (λ p. WriteBuffer.flush WriteBuffer.works e.wb e.file >>= λ r.
                  read_flushed BufferReads.works p decode e r)
                (position-InRange e idx range)
              ∙ ap (λ o. o >>= λ r. read_flushed BufferReads.works position decode e r) returned
              ∙ exact,
          same_view,
          same_size,
          readable,
        )
