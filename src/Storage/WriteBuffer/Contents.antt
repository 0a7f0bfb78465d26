-- ===== src/Storage/WriteBuffer/Contents.antt =====
-- What a WriteBuffer stands for: its file as it is once the buffer is flushed.
use goapptrace.Base.{
  some-injective, ℕ, ◌+◌, ◌-◌, ◌≤◌, ◌≡◌, ◌≢◌, refl, sym, ap, ◌∙◌, arith, Bool, true, false, List,
  [], Option, none, some, ok, ◌==◌, ==_iff, Bool-cases, ok-injective, inl, inr, le→leb, length,
  length-take, length-drop, drop,
}
use goapptrace.Storage.Disk.{write_at, write_at-write_at_again}
use goapptrace.Storage.WriteBuffer.{
  WriteBuffer, FileWriter, Io, Transfer, whole, fails, buffered, bytes_of, flush, flush_seek,
  flush_write, at_pos, with_wpos, works,
}

abbrev pub contents : WriteBuffer → FileWriter → List ℕ
contents b w = write_at w.content b.pos (buffered b)

-- What holds of a buffer between two operations.
pub record IsSynced (b : WriteBuffer) (w : FileWriter) : Type 0 where
  pub from_zero : b.left ≡ 0
  pub within : b.right ≤ length (bytes_of b.buf)
  pub at_wpos : (p : ℕ) → b.wpos ≡ some p → w.offset ≡ p

-- The result of a flush.
pub record IsFlushed (b : WriteBuffer) (w : FileWriter) (r : WriteBuffer × FileWriter × Bool)
    : Type 0 where
  pub synced : IsSynced r.0 r.1
  pub kept : contents r.0 r.1 ≡ contents b w
  pub same_buf : r.0.buf ≡ b.buf
  pub same_max : r.0.max_write_size ≡ b.max_write_size
  pub same_size : r.0.buffer_size ≡ b.buffer_size
  pub same_end : r.0.pos + (r.0.right - r.0.left) ≡ b.pos + (b.right - b.left)
  pub emptied : r.2 ≡ true → (r.0.right ≡ 0) × (r.1.content ≡ contents b w)
  pub not_grown : r.0.right ≤ b.right

module _ (b : WriteBuffer) (w : FileWriter) (s : IsSynced b w) where
  pub length-buffered : length (buffered b) ≡ b.right - b.left
  unfolding buffered
  length-buffered =
      let bytes : List ℕ = bytes_of b.buf in
      omega (
        arith,
        s.within,
        length-take (b.right - b.left) (drop b.left bytes),
        length-drop b.left bytes,
      )

  pub buffered-empty : b.right ≡ 0 → buffered b ≡ []
  unfolding buffered
  buffered-empty h = let none_left : b.right - b.left ≡ 0 = omega arith in rw none_left refl

  flush_write-IsFlushed : (t : Transfer) → w.offset ≡ b.pos → IsFlushed b w (flush_write t b w)
  unfolding buffered
  flush_write-IsFlushed whole e = record {
    synced = record {
      from_zero = refl;
      within = omega arith;
      at_wpos = λ p h. rw (e, length-buffered) (some-injective h);
    };
    kept = ap (λ p. write_at w.content p (buffered b)) e;
    same_buf = refl;
    same_max = refl;
    same_size = refl;
    same_end = omega arith;
    emptied = λ h. (refl, ap (λ p. write_at w.content p (buffered b)) e);
    not_grown = omega arith;
  }
  flush_write-IsFlushed (fails done) e = record {
    synced = record { from_zero = s.from_zero; within = s.within; at_wpos = λ p h. cc };
    kept = rw e (write_at-write_at_again w.content b.pos done (buffered b));
    same_buf = refl;
    same_max = refl;
    same_size = refl;
    same_end = refl;
    emptied = λ h. cc;
    not_grown = omega arith;
  }

  unflushed : (success : Bool) → (success ≡ true → b.right ≡ 0) → IsFlushed b w (b, w, success)
  unflushed success h = record {
    synced = s;
    kept = refl;
    same_buf = refl;
    same_max = refl;
    same_size = refl;
    same_end = refl;
    emptied = λ e. (h e, rw (buffered-empty (h e)) refl);
    not_grown = omega arith;
  }

module _ (b : WriteBuffer) (w : FileWriter) (s : IsSynced b w) (io : Io) where
  sought : WriteBuffer × FileWriter
  sought = (with_wpos (some b.pos) b, record { content = w.content; offset = b.pos })

  sought-IsSynced : IsSynced sought.0 sought.1
  unfolding sought
  sought-IsSynced = record {
    from_zero = s.from_zero;
    within = s.within;
    at_wpos = λ p h. some-injective h;
  }

  sought-IsFlushed :
      (r : WriteBuffer × FileWriter × Bool) → IsFlushed sought.0 sought.1 r → IsFlushed b w r
  unfolding sought buffered
  sought-IsFlushed r f = record {
    synced = f.synced;
    kept = f.kept;
    same_buf = f.same_buf;
    same_max = f.same_max;
    same_size = f.same_size;
    same_end = f.same_end;
    emptied = f.emptied;
    not_grown = f.not_grown;
  }

  flush_seek-IsFlushed :
      (at : Bool)
      → (at ≡ true → w.offset ≡ b.pos)
      → (b.right ≢ 0)
      → IsFlushed b w (flush_seek at io b w)
  unfolding sought
  flush_seek-IsFlushed true h e = flush_write-IsFlushed b w s io.transfer (h refl)
  flush_seek-IsFlushed false h e = elim (Bool-cases io.seeks) [
    | inl sought_ok ↦ rw sought_ok (
        sought-IsFlushed _
          (flush_write-IsFlushed sought.0 sought.1 sought-IsSynced io.transfer refl))
    | inr stuck ↦ rw stuck (unflushed b w s false (λ h. cc))
  ]

  at_pos-offset : (p : Option ℕ) (q : ℕ) → b.wpos ≡ p → at_pos p q ≡ true → w.offset ≡ q
  at_pos-offset none q e h = cc
  at_pos-offset (some p) q e h = s.at_wpos p e ∙ (==_iff p q).0 h

  -- Flush returns, with an error or not.
  pub flush-IsFlushed :
      (r : WriteBuffer × FileWriter × Bool) × (flush io b w ≡ ok r) × IsFlushed b w r
  unfolding flush
  flush-IsFlushed = elim (Bool-cases (b.left == b.right)) [
    | inl e ↦ (
      (b, w, true),
      rw e refl,
      unflushed b w s true (λ h. sym ((==_iff b.left b.right).0 e) ∙ s.from_zero),
    )
    | inr e ↦ (
      flush_seek (at_pos b.wpos b.pos) io b w,
      rw (e, le→leb _ _ s.within) refl,
      flush_seek-IsFlushed _ (at_pos-offset b.wpos b.pos refl) (λ z. ground (arith, s.from_zero)),
    )
  ]

flush_seek-works :
    (at : Bool) (b : WriteBuffer) (w : FileWriter) → (flush_seek at works b w).2 ≡ true
flush_seek-works true b w = refl
flush_seek-works false b w = refl

-- Where the file works, Flush succeeds.
pub flush-works :
    (b : WriteBuffer) (w : FileWriter)
    → IsSynced b w
    → (r : WriteBuffer × FileWriter × Bool) → flush works b w ≡ ok r
    → r.2 ≡ true
unfolding flush
flush-works b w s r e = elim (Bool-cases (b.left == b.right)) [
  | inl same ↦
      let run : flush works b w ≡ ok (b, w, true) = rw same refl in
      ap (λ x. x.2) (ok-injective (sym e ∙ run))
  | inr other ↦
      let run : flush works b w ≡ ok (flush_seek (at_pos b.wpos b.pos) works b w) =
        rw (other, le→leb _ _ s.within) refl in
      ap (λ x. x.2) (ok-injective (sym e ∙ run)) ∙ flush_seek-works (at_pos b.wpos b.pos) b w
]
