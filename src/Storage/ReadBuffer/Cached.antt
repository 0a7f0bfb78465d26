-- ===== src/Storage/ReadBuffer/Cached.antt =====
-- When the cache of a ReadBuffer has the bytes of the file, and a read returns them.
use goapptrace.Base.{
  ℕ, ◌+◌, ◌-◌, ◌≤◌, ◌≡◌, refl, sym, ap, ◌∙◌, arith, true, List, ok, leb, Bool-cases, inl, inr,
  le→leb, le→not_ltb, length, length-drop, length-append, take-take, drop-take_sub, drop-drop,
  take-append_length, take-length-take, not_leb→lt, leb→le, take, drop, ◌++◌,
}
use native.Mathlib.Nat.{sub-zero}
use goapptrace.Storage.Disk.{read_at}
use goapptrace.Storage.WriteBuffer.{bytes_of, at_pos}
use goapptrace.Storage.ReadBuffer.{ReadBuffer, ReadIo, read_buf, read}
use goapptrace.Storage.ReadBuffer.Reads.{
  next_offset, works, IsSized, got, cached, cached_offset, length-got, next_offset-pos,
  read-uncached,
}

-- The cached bytes are those of the file.
pub record IsCached (file : List ℕ) (b : ReadBuffer) : Type 0 where
  pub ordered : b.left ≤ b.right
  pub within : b.right ≤ length (bytes_of b.buf)
  pub same_bytes :
      drop b.left (take b.right (bytes_of b.buf)) ≡ read_at file b.pos (b.right - b.left)

module _ (file : List ℕ) (n : ℕ) (b : ReadBuffer) (c : IsCached file b)
    (h : n ≤ b.right - b.left) where
  abbrev advance : ReadBuffer
  advance = record b { pos = b.pos + n; left = b.left + n }

  pub advance-IsCached : IsCached file advance
  advance-IsCached =
      let left_over : b.right - b.left - n ≡ b.right - (b.left + n) = omega arith in
      record {
        ordered = omega (arith, c.ordered);
        within = c.within;
        same_bytes =
            sym (drop-drop b.left n (take b.right (bytes_of b.buf)))
            ∙ ap (drop n) c.same_bytes
            ∙ drop-take_sub n (b.right - b.left) (drop b.pos file)
            ∙ rw (left_over, drop-drop b.pos n file) refl;
      }

  take_from_cache : take n (drop b.left (bytes_of b.buf)) ≡ read_at file b.pos n
  take_from_cache =
      sym (take-take n (b.right - b.left) (drop b.left (bytes_of b.buf)) h)
      ∙ ap (take n) (sym (drop-take_sub b.left b.right (bytes_of b.buf)) ∙ c.same_bytes)
      ∙ take-take n (b.right - b.left) (drop b.pos file) h

  pub read-cached :
      (rio : ReadIo) (offset : ℕ)
      → b.max_read_size ≡ n
      → read rio file n b offset ≡ ok (advance, offset, inl (read_at file b.pos n))
  unfolding read
  read-cached rio offset e =
      rw
        (
          le→not_ltb b.max_read_size n (omega (arith, e)),
          le→not_ltb (b.right - b.left) b.max_read_size (omega (arith, e)),
          le→leb (b.left + n) (length (bytes_of b.buf)) (omega (arith, c.ordered, c.within)),
          take_from_cache,
        )
        refl

pub advance-IsSized :
    (n : ℕ) (b : ReadBuffer) → IsSized n b → (l p : ℕ) → IsSized n (record b { pos = p; left = l })
advance-IsSized n b s l p = record {
  positive = s.positive;
  exact = s.exact;
  large = s.large;
  full = s.full;
}

-- What a successful read keeps: the bytes in the cache are those of the file.
pub record IsExactRead (file : List ℕ) (n : ℕ) (b : ReadBuffer) (offset : ℕ) : Type 0 where
  pub after : ReadBuffer
  pub after_offset : ℕ
  pub returned : read works file n b offset ≡ ok (after, after_offset, inl (read_at file b.pos n))
  pub sized : IsSized n after
  pub cached : IsCached file after

module _ (file : List ℕ) (n : ℕ) (b : ReadBuffer) (offset : ℕ) (s : IsSized n b) where
  cached_bytes-eq :
      (o : ℕ) (rest : List ℕ)
      → o ≡ b.pos
      → take (length (read_at file o b.buffer_size)) (read_at file o b.buffer_size ++ rest)
        ≡ read_at file b.pos (length (read_at file o b.buffer_size) - 0)
  cached_bytes-eq o rest e =
      take-append_length (read_at file o b.buffer_size) rest
      ∙ rw (e, sub-zero) (sym (take-length-take b.buffer_size (drop b.pos file)))

  -- From the offset that it believes in, DoCache caches the bytes of the file.
  cached-IsCached : next_offset b offset ≡ b.pos → IsCached file (cached file n b offset s)
  cached-IsCached e =
      let bytes : List ℕ = got file n b s (next_offset b offset) in
      let rest : List ℕ = drop (length bytes) (read_buf b) in
      record {
        ordered = omega arith;
        within = omega (arith, length-append bytes rest);
        same_bytes = cached_bytes-eq (next_offset b offset) rest e;
      }

  pub cached-IsSized : IsSized n (cached file n b offset s)
  cached-IsSized =
      let bytes : List ℕ = got file n b s (next_offset b offset) in
      record {
        positive = s.positive;
        exact = s.exact;
        large = s.large;
        full = omega (
          arith,
          s.full,
          length-append bytes (drop (length bytes) (read_buf b)),
          length-drop (length bytes) (read_buf b),
          length-got file n b s (next_offset b offset),
        );
      }

  -- A read of bytes that are in the file returns them, whether they are in the cache or not.
  pub read-IsExactRead :
      IsCached file b
      → (at_pos b.rpos b.pos ≡ true → offset ≡ b.pos)
      → b.pos + n ≤ length file
      → IsExactRead file n b offset
  read-IsExactRead c fresh k = elim (Bool-cases (leb n (b.right - b.left))) [
    | inl e ↦
        let enough : n ≤ b.right - b.left = leb→le n (b.right - b.left) e in
        record {
          after = record b { pos = b.pos + n; left = b.left + n };
          after_offset = offset;
          returned = read-cached file n b c enough works offset s.exact;
          sized = advance-IsSized n b s (b.left + n) (b.pos + n);
          cached = advance-IsCached file n b c enough;
        }
    | inr e ↦
        let there : next_offset b offset ≡ b.pos = next_offset-pos b offset fresh in
        let bytes : List ℕ = got file n b s (next_offset b offset) in
        let inside : next_offset b offset + n ≤ length file = omega (arith, there) in
        let enough : n ≤ length bytes - 0 =
          omega (arith, there, length-got file n b s (next_offset b offset), s.large) in
        let c' : ReadBuffer = cached file n b offset s in
        record {
          after = record c' { pos = b.pos + n; left = 0 + n };
          after_offset = cached_offset file n b offset s;
          returned =
              read-uncached file n b offset s (not_leb→lt n (b.right - b.left) e) inside
              ∙ ap
                  (λ p. ok (
                    record c' { pos = b.pos + n; left = 0 + n },
                    cached_offset file n b offset s,
                    inl (read_at file p n),
                  ))
                  there;
          sized = advance-IsSized n c' cached-IsSized (0 + n) (b.pos + n);
          cached = advance-IsCached file n c' (cached-IsCached there) enough;
        }
  ]
