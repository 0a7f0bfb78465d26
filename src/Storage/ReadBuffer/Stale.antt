-- ===== src/Storage/ReadBuffer/Stale.antt =====
-- What DoCache does after a read that the end of the file cut short.
use goapptrace.Base.{
  ℕ, ◌+◌, ◌-◌, ◌≤◌, ◌<◌, ◌≡◌, refl, ap, ◌∙◌, arith, true, List, some, Option, ok, inl, ==_iff,
  length, length-append, take, drop-append_length, ◌++◌,
}
use goapptrace.Storage.Disk.{read_at}
use goapptrace.Storage.WriteBuffer.{at_pos}
use goapptrace.Storage.ReadBuffer.{ReadBuffer, drop_cache, seek, read}
use goapptrace.Storage.ReadBuffer.Seeks.{IsPlaced, seek-IsPlaced}
use goapptrace.Storage.ReadBuffer.Reads.{
  next_offset, next_offset-pos, works, IsSized, cached, cached_offset, read-uncached,
  cached_offset_end,
}
use goapptrace.Storage.ReadBuffer.Cached.{advance-IsSized, cached-IsSized}

module _ (file more : List ℕ) (n : ℕ) (b : ReadBuffer) (offset : ℕ) (s : IsSized n b) where
  -- The end of the buffer, where it is beyond the end of the file.
  abbrev pub beyond : ℕ
  beyond = b.pos + b.buffer_size

  abbrev pub again : ReadBuffer → ReadBuffer
  again c = drop_cache (seek beyond c)

  again-IsSized : (c : ReadBuffer) → IsSized n c → IsSized n (again c)
  again-IsSized c t =
      let p : IsPlaced file n beyond c (seek beyond c) = seek-IsPlaced file n beyond c in
      let t' : IsSized n (seek beyond c) = p.sized t in
      record { positive = t'.positive; exact = t'.exact; large = t'.large; full = t'.full }

  at_pos_self : (o : Option ℕ) (p q : ℕ) → o ≡ some p → q ≡ p → at_pos o q ≡ true
  at_pos_self o p q e h = rw (e, h) ((==_iff p p).1 refl)

  next_offset-again : (c : ReadBuffer) (o : ℕ) → c.rpos ≡ some beyond → next_offset (again c) o ≡ o
  next_offset-again c o e =
      let p : IsPlaced file n beyond c (seek beyond c) = seek-IsPlaced file n beyond c in
      rw (at_pos_self (again c).rpos beyond (again c).pos (p.same_rpos ∙ e) (p.there)) refl

  -- A read with nothing in the cache, whose buffer is right about the offset of its file if it believes
  -- that it is at the position, returns the `n` bytes at its
  -- position. If the file ends within BufferSize of that position, and `n` bytes or more are appended
  -- to it, then a read at the position plus BufferSize, with the cache dropped, does not return the
  -- bytes there: it returns the first `n` bytes that were appended.
  pub read-stale :
      b.right - b.left < n
      → (at_pos b.rpos b.pos ≡ true → offset ≡ b.pos)
      → b.pos + n ≤ length file
      → length file < beyond
      → n ≤ length more
      → (c : ReadBuffer) × (o : ℕ) × (c' : ReadBuffer) × (o' : ℕ) × (read works file n b offset
          ≡ ok (c, o, inl (read_at file b.pos n)))
        × (read works (file ++ more) n (again c) o ≡ ok (c', o', inl (take n more)))
  read-stale uncached fresh inside short enough =
      let there : next_offset b offset ≡ b.pos = next_offset-pos b offset fresh in
      let c : ReadBuffer = record (cached file n b offset s) { pos = b.pos + n; left = 0 + n } in
      let o : ℕ = cached_offset file n b offset s in
      let at_end : o ≡ length file =
        cached_offset_end file n b offset s (omega (arith, there)) (omega (arith, there)) in
      let sized : IsSized n (again c) = again-IsSized c (
        advance-IsSized n (cached file n b offset s) (cached-IsSized file n b offset s) (0 + n)
          (b.pos + n)) in
      let behind : next_offset (again c) o ≡ length file = next_offset-again c o refl ∙ at_end in
      let room : next_offset (again c) o + n ≤ length (file ++ more) =
        omega (arith, behind, length-append file more) in
      let found : read_at (file ++ more) (next_offset (again c) o) n ≡ take n more =
        ap (λ p. read_at (file ++ more) p n) behind ∙ ap (take n) (drop-append_length file more) in
      let c' : ReadBuffer = record (cached (file ++ more) n (again c) o sized) {
        pos = (again c).pos + n;
        left = 0 + n;
      } in
      let o' : ℕ = cached_offset (file ++ more) n (again c) o sized in
      (
        c,
        o,
        c',
        o',
        read-uncached file n b offset s uncached (omega (arith, there))
            ∙ ap (λ p. ok (c, o, inl (read_at file p n))) there,
        read-uncached (file ++ more) n (again c) o sized s.positive room
            ∙ ap (λ l. ok (c', o', inl l)) found,
      )
