-- ===== src/Storage/Store/Opened.antt =====
-- A Store that Open has opened for reading and writing.
use goapptrace.Base.{
  ℕ, ◌/◌, ◌≤◌, ◌<◌, ◌≡◌, refl, ap, arith, true, false, none, ok, ◌==◌, length, length-replicate,
  if◌then◌else◌,
}
use goapptrace.Storage.Store.{
  Store, OpenIo, open_store, buffer_size_for, new_read_buffer, new_write_buffer, at_start,
  open_reader,
}
use goapptrace.Storage.WriteBuffer.{buffered}
use goapptrace.Storage.Store.Writes.{view}
use goapptrace.Storage.Store.RoundTrip.{IsOpen}

abbrev pub all_open : OpenIo
all_open = record { opens_write = true; opens_read = true; sizes = true }

-- The store after Open.
abbrev pub opened : Store → Store
opened e = record e {
  closed = false;
  file = at_start e.file;
  r_offset = 0;
  rb = new_read_buffer e.record_size;
  wb = new_write_buffer e.record_size;
  records = length e.file.content / e.record_size;
}

size-le-buffer_size : (n : ℕ) → n ≤ buffer_size_for n
size-le-buffer_size n = ground arith

pub opened-IsOpen : (e : Store) → e.read_only ≡ false → 0 < e.record_size → IsOpen (opened e)
opened-IsOpen e writable positive = record {
  writable = record {
    open_still = refl;
    for_writing = writable;
    record_max = refl;
    synced = record { from_zero = refl; within = omega arith; at_wpos = λ p h. cc };
  };
  readable = record {
    synced = record { from_zero = refl; within = omega arith; at_wpos = λ p h. cc };
    sized = record {
      positive = positive;
      exact = refl;
      large = size-le-buffer_size e.record_size;
      full = length-replicate (buffer_size_for e.record_size) 0;
    };
    cached = record { ordered = omega arith; within = omega arith; same_bytes = refl };
  };
  room = omega (arith, size-le-buffer_size e.record_size);
}

unbuffered-view : (e : Store) → view (opened e) ≡ e.file.content
unfolding buffered
unbuffered-view e = refl

-- Open of a file that can be opened counts its records and leaves the bytes.
pub open_store-opened :
    (e : Store)
    → e.read_only ≡ false
    → 0 < e.record_size
    → (open_store all_open e ≡ ok (opened e, none)) × (view (opened e) ≡ e.file.content)
unfolding open_store
open_store-opened e writable positive =
    let not_zero : (e.record_size == 0) ≡ false = ground arith in
    (
      rw (not_zero) (
          ap
            (λ b.
              ok (
                if b then open_reader all_open (record e { closed = false }) else (opened e, none)))
            writable),
      unbuffered-view e,
    )
