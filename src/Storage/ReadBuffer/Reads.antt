-- ===== src/Storage/ReadBuffer/Reads.antt =====
-- What Read of a ReadBuffer with no cache returns.
use goapptrace.Base.{
  ℕ, min, ◌+◌, ◌-◌, ◌≤◌, ◌<◌, ◌≡◌, refl, ap, arith, true, List, Option, none, some, ok, ==_iff,
  Bool-cases, inl, inr, le→leb, lt→ltb, lt→not_leb, le→not_ltb, if◌then◌else◌, length, length-take,
  length-drop, length-append, take-append_within, take-take, drop, ◌++◌,
}
use goapptrace.Storage.Disk.{read_at}
use goapptrace.Storage.WriteBuffer.{at_pos}
use goapptrace.Storage.ReadBuffer.{
  ReadBuffer, ReadIo, read_buf, fill_cache, do_cache, read_cached, read, advanced,
}

-- Where the next read of the file begins.
abbrev pub next_offset : ReadBuffer → ℕ → ℕ
next_offset b offset = if at_pos b.rpos b.pos then offset else b.pos

abbrev pub works : ReadIo
works = record { seeks = true; reads = true }

-- The buffer is allocated with its size, or will be; every record has `n` bytes.
pub record IsSized (n : ℕ) (b : ReadBuffer) : Type 0 where
  pub positive : 0 < n
  pub exact : b.max_read_size ≡ n
  pub large : n ≤ b.buffer_size
  pub full : length (read_buf b) ≡ b.buffer_size

pub next_offset-pos :
    (b : ReadBuffer) (offset : ℕ)
    → (at_pos b.rpos b.pos ≡ true → offset ≡ b.pos)
    → next_offset b offset ≡ b.pos
next_offset-pos b offset fresh = elim (Bool-cases (at_pos b.rpos b.pos)) [
  | inl e ↦ rw e (fresh e)
  | inr e ↦ rw e refl
]

module _ (file : List ℕ) (n : ℕ) (b : ReadBuffer) (s : IsSized n b) where
  abbrev pub got : ℕ → List ℕ
  got offset = read_at file offset b.buffer_size

  -- The buffer that is filled again from the offset.
  abbrev pub filled : Option ℕ → ℕ → ReadBuffer
  filled p offset = record b {
    rpos = p;
    buf = some (got offset ++ drop (length (got offset)) (read_buf b));
    left = 0;
    right = length (got offset);
  }

  pub length-got : (offset : ℕ) → length (got offset) ≡ min b.buffer_size (length file - offset)
  length-got offset =
      omega (arith, length-take b.buffer_size (drop offset file), length-drop offset file)

  fill_cache-ok :
      (offset : ℕ)
      → offset < length file
      → fill_cache works file b offset
        ≡ (filled (advanced b.buffer_size b.rpos) offset, offset + length (got offset), none)
  fill_cache-ok offset h = rw (lt→not_leb (length file) offset h, s.full) refl

module _ (file : List ℕ) (n : ℕ) (b : ReadBuffer) (offset : ℕ) (s : IsSized n b) where
  abbrev sought : ReadBuffer
  sought = record b { rpos = some b.pos }

  sought-IsSized : IsSized n sought
  sought-IsSized = record { positive = s.positive; exact = s.exact; large = s.large; full = s.full }

  -- The buffer after DoCache, which begins with the bytes at the next offset.
  abbrev pub cached : ReadBuffer
  cached = filled file n b s (some (b.pos + b.buffer_size)) (next_offset b offset)

  pub cached_offset : ℕ
  cached_offset = next_offset b offset + length (got file n b s (next_offset b offset))

  at_pos-some : (o : Option ℕ) (p : ℕ) → at_pos o p ≡ true → o ≡ some p
  at_pos-some none p h = cc
  at_pos-some (some q) p h = ap some ((==_iff q p).0 h)

  -- DoCache reads up to the end of the file, if that is near.
  pub cached_offset_end :
      next_offset b offset ≤ length file
      → length file ≤ next_offset b offset + b.buffer_size
      → cached_offset ≡ length file
  unfolding cached_offset
  cached_offset_end h k = omega (arith, length-got file n b s (next_offset b offset))

  pub do_cache-cached :
      next_offset b offset < length file
      → do_cache works file b offset ≡ (cached, cached_offset, none)
  unfolding do_cache cached_offset
  do_cache-cached h = elim (Bool-cases (at_pos b.rpos b.pos)) [
    | inl e ↦
        let there : offset < length file = rw e at h in
        rw (e, fill_cache-ok file n b s offset there, at_pos-some b.rpos b.pos e) refl
    | inr e ↦
        let there : b.pos < length file = rw e at h in
        rw (e, fill_cache-ok file n sought sought-IsSized b.pos there) refl
  ]

  take_cached-ok :
      next_offset b offset + n ≤ length file
      → read_cached n (cached, cached_offset, none)
        ≡ ok (
          record cached { pos = b.pos + n; left = 0 + n },
          cached_offset,
          inl (read_at file (next_offset b offset) n),
        )
  take_cached-ok k =
      let bytes : List ℕ = got file n b s (next_offset b offset) in
      let rest : List ℕ = drop (length bytes) (read_buf b) in
      let enough : n ≤ length bytes =
        omega (arith, length-got file n b s (next_offset b offset), s.large) in
      rw
        (
          le→leb (0 + n) (length (bytes ++ rest)) (omega (arith, length-append bytes rest)),
          take-append_within n bytes rest enough,
          take-take n b.buffer_size (drop (next_offset b offset) file) s.large,
        )
        refl

  -- A read that finds too little in the buffer takes its bytes from the file.
  pub read-uncached :
      b.right - b.left < n
      → next_offset b offset + n ≤ length file
      → read works file n b offset
        ≡ ok (
          record cached { pos = b.pos + n; left = 0 + n },
          cached_offset,
          inl (read_at file (next_offset b offset) n),
        )
  unfolding read
  read-uncached h k =
      let there : next_offset b offset < length file = omega (arith, s.positive) in
      rw
        (
          le→not_ltb b.max_read_size n (omega (arith, s.exact)),
          lt→ltb (b.right - b.left) b.max_read_size (omega (arith, s.exact)),
          do_cache-cached there,
        )
        (take_cached-ok k)
