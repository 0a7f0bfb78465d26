-- ===== src/Storage/WriteBuffer/Records.antt =====
-- A record that is written through a WriteBuffer: the slice of WriteBuffer is filled, and Write
-- called.
use goapptrace.Base.{
  ℕ, zero, suc, ◌+◌, ◌-◌, ◌≤◌, ◌≡◌, refl, sym, ap, ◌∙◌, arith, Bool, true, List, Option, none, some,
  ok, ok-injective, panic, leb, ltb, Bool-cases, inl, inr, le→leb, le→not_ltb, leb→le, length,
  length-take, length-drop, length-append, length-replicate, take-append_beyond, take-append_within,
  replicate, take, drop, ◌++◌,
}
use goapptrace.Encoding.Slices.{Marshal}
use goapptrace.Storage.Disk.{write_at, write_at-write_at_next}
use goapptrace.Storage.WriteBuffer.{
  WriteBuffer, FileWriter, Io, works, buffered, bytes_of, flush, allocated, fill_slice, write,
}
use goapptrace.Storage.WriteBuffer.Contents.{
  contents, IsSynced, IsFlushed, flush-IsFlushed, flush-works, length-buffered,
}

abbrev pub capacity : ℕ → Option (List ℕ) → ℕ
capacity size none = size
capacity size (some buf) = length buf

-- The buffer has the room for one more record.
abbrev pub HasRoom : WriteBuffer → Type 0
HasRoom b = b.right + b.max_write_size ≤ capacity b.buffer_size b.buf

-- The buffer, allocated.
abbrev buffer : ℕ → Option (List ℕ) → List ℕ
buffer size none = replicate size 0
buffer size (some buf) = buf

length-buffer : (size : ℕ) (o : Option (List ℕ)) → length (buffer size o) ≡ capacity size o
length-buffer size none = length-replicate size 0
length-buffer size (some buf) = refl

allocated-ok :
    (b : WriteBuffer) (o : Option (List ℕ))
    → b.max_write_size ≤ capacity b.buffer_size o
    → allocated b o ≡ ok (buffer b.buffer_size o)
allocated-ok b none h = rw (le→not_ltb _ _ h) refl
allocated-ok b (some buf) h = refl

take-buffer :
    (size n : ℕ) (o : Option (List ℕ))
    → n ≤ length (bytes_of o)
    → take n (buffer size o) ≡ take n (bytes_of o)
take-buffer size zero none h = refl
take-buffer size (suc n) none h = absurd (omega arith)
take-buffer size n (some buf) h = refl

-- The result of a Write of `n` bytes, which are `written`.
pub record IsWritten (b : WriteBuffer) (w : FileWriter) (written : List ℕ) (n : ℕ)
    (r : WriteBuffer × FileWriter × Bool) : Type 0 where
  pub synced : IsSynced r.0 r.1
  pub extended : contents r.0 r.1 ≡ write_at (contents b w) (b.pos + (b.right - b.left)) written
  pub same_max : r.0.max_write_size ≡ b.max_write_size
  pub more_room : r.2 ≡ true → HasRoom r.0
  pub end : r.0.pos + (r.0.right - r.0.left) ≡ b.pos + (b.right - b.left) + n

module _ (b : WriteBuffer) (w : FileWriter) (s : IsSynced b w) (room : HasRoom b) where
  abbrev bytes : List ℕ
  bytes = buffer b.buffer_size b.buf

  -- The slice that WriteBuffer gives.
  abbrev pub free_slice : List ℕ
  free_slice = take b.max_write_size (drop b.right bytes)

  pub length-free_slice : length free_slice ≡ b.max_write_size
  length-free_slice = omega (
    arith,
    length-take b.max_write_size (drop b.right bytes),
    length-drop b.right bytes,
    length-buffer b.buffer_size b.buf,
  )

  module _ (out : List ℕ) (same : length out ≡ b.max_write_size) where
    abbrev pub filled : WriteBuffer
    filled = record b {
      buf = some (take b.right bytes ++ (out ++ drop (b.right + b.max_write_size) bytes));
    }

    pub fill_slice-ok :
        (fill : Marshal) (n : ℕ)
        → fill free_slice ≡ ok (out, n)
        → fill_slice fill b ≡ ok (filled, n)
    unfolding fill_slice
    fill_slice-ok fill n h =
        rw
          (
            allocated-ok b b.buf (omega arith),
            le→leb (b.right + b.max_write_size) (length bytes)
                (omega (arith, length-buffer b.buffer_size b.buf)),
            h,
          )
          refl

    module _ (k : ℕ) (small : k ≤ b.max_write_size) where
      abbrev pub longer : WriteBuffer
      longer = record filled { right = b.right + k }

      length-prefix : length (take b.right bytes) ≡ b.right
      length-prefix = omega (arith, length-take b.right bytes, length-buffer b.buffer_size b.buf)

      buffered-longer : buffered longer ≡ buffered b ++ take k out
      unfolding buffered
      buffered-longer =
          let rest : List ℕ = out ++ drop (b.right + b.max_write_size) bytes in
          let count : b.right + k - length (take b.right bytes) ≡ k =
            omega (arith, length-prefix) in
          let before : b.right - 0 ≡ b.right = omega arith in
          let all : b.right + k - 0 ≡ b.right + k = omega arith in
          rw
            (
              s.from_zero,
              before,
              all,
              take-append_beyond (b.right + k) (take b.right bytes) rest
                  (omega (arith, length-prefix)),
              count,
              take-append_within k out (drop (b.right + b.max_write_size) bytes) (omega arith),
            )
            (ap (λ a. a ++ take k out) (take-buffer b.buffer_size b.right b.buf s.within))

      pub longer-IsSynced : IsSynced longer w
      longer-IsSynced =
          let rest : List ℕ = out ++ drop (b.right + b.max_write_size) bytes in
          record {
            from_zero = s.from_zero;
            within = omega (
              arith,
              length-append (take b.right bytes) rest,
              length-append out (drop (b.right + b.max_write_size) bytes),
              length-prefix,
            );
            at_wpos = s.at_wpos;
          }

      contents-longer :
          contents longer w ≡ write_at (contents b w) (b.pos + (b.right - b.left)) (take k out)
      contents-longer =
          rw (buffered-longer, ← length-buffered b w s)
            (sym (write_at-write_at_next w.content b.pos (buffered b) (take k out)))

      length-longer : length (bytes_of longer.buf) ≡ capacity b.buffer_size b.buf
      length-longer =
          let rest : List ℕ = drop (b.right + b.max_write_size) bytes in
          omega (
            arith,
            length-prefix,
            length-append (take b.right bytes) (out ++ rest),
            length-append out rest,
            length-drop (b.right + b.max_write_size) bytes,
            length-buffer b.buffer_size b.buf,
          )

      unflushed :
          (r : WriteBuffer × FileWriter × Bool)
          → r ≡ (longer, w, true)
          → HasRoom longer
          → IsWritten b w (take k out) k r
      unflushed r e h = rw e (record {
        synced = longer-IsSynced;
        extended = contents-longer;
        same_max = refl;
        more_room = λ _. h;
        end = omega (arith, s.from_zero);
      })

      flushed :
          (r : WriteBuffer × FileWriter × Bool)
          → IsFlushed longer w r
          → IsWritten b w (take k out) k r
      flushed r f = record {
        synced = f.synced;
        extended = f.kept ∙ contents-longer;
        same_max = f.same_max;
        more_room = λ e.
            let same_room : capacity r.0.buffer_size r.0.buf ≡ length (bytes_of longer.buf) =
              rw (f.same_buf) refl in
            omega (arith, (f.emptied e).0, same_room, length-longer, f.same_max);
        end = omega (arith, f.same_end, s.from_zero);
      }

      pub write-IsWritten :
          (io : Io)
          → (r : WriteBuffer × FileWriter × Bool) × (write io k filled w ≡ ok r)
            × IsWritten b w (take k out) k r
      unfolding write
      write-IsWritten io =
          let (r, same_r, f) = flush-IsFlushed longer w longer-IsSynced io in
          elim (Bool-cases (leb b.max_write_size (length (bytes_of longer.buf) - (b.right + k)))) [
            | inl e ↦ (
              (longer, w, true),
              rw (le→not_ltb b.max_write_size k small, e) refl,
              unflushed _ refl (omega (arith, leb→le _ _ e, length-longer)),
            )
            | inr e ↦ (r, rw (le→not_ltb b.max_write_size k small, e) same_r, flushed r f)
          ]

-- Where the file works, Write succeeds.
pub write-works :
    (b : WriteBuffer) (w : FileWriter) (n : ℕ)
    → IsSynced (record b { right = b.right + n }) w
    → (r : WriteBuffer × FileWriter × Bool) → write works n b w ≡ ok r
    → r.2 ≡ true
unfolding write
write-works b w n s r e =
    let b' : WriteBuffer = record b { right = b.right + n } in
    elim (Bool-cases (ltb b.max_write_size n)) [
      | inl large ↦ let run : write works n b w ≡ panic = rw large refl in cc
      | inr small ↦
          elim (Bool-cases (leb b.max_write_size (length (bytes_of b.buf) - (b.right + n)))) [
            | inl room ↦
                let run : write works n b w ≡ ok (b', w, true) = rw (small, room) refl in
                ap (λ x. x.2) (ok-injective (sym e ∙ run))
            | inr full ↦
                let run : write works n b w ≡ flush works b' w = rw (small, full) refl in
                flush-works b' w s r (sym run ∙ e)
          ]
    ]
