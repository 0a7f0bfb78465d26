-- ===== src/Storage/WriteBuffer/Seeks.antt =====
-- Where a WriteBuffer goes by Seek.
use goapptrace.Base.{
  ℕ, ◌+◌, ◌-◌, ◌≡◌, refl, sym, ap, ◌∙◌, arith, Bool, true, false, ok, ◌==◌, ==_iff, Bool-cases, inl,
  inr, ok-injective, if◌then◌else◌,
}
use goapptrace.Storage.Disk.{write_at}
use goapptrace.Storage.WriteBuffer.{WriteBuffer, FileWriter, Io, works, seek}
use goapptrace.Storage.WriteBuffer.Contents.{
  contents, IsSynced, IsFlushed, flush-IsFlushed, flush-works, buffered-empty,
}
use goapptrace.Storage.WriteBuffer.Records.{HasRoom, capacity}

pub record IsSought (b : WriteBuffer) (w : FileWriter) (pos : ℕ)
    (r : WriteBuffer × FileWriter × Bool) : Type 0 where
  pub synced : IsSynced r.0 r.1
  pub kept : contents r.0 r.1 ≡ contents b w
  pub same_max : r.0.max_write_size ≡ b.max_write_size
  pub room : HasRoom b → HasRoom r.0
  pub reached : r.2 ≡ true → r.0.pos + (r.0.right - r.0.left) ≡ pos

module _ (b : WriteBuffer) (w : FileWriter) (s : IsSynced b w) (pos : ℕ) where
  same_room : (r : WriteBuffer × FileWriter × Bool) → IsFlushed b w r → HasRoom b → HasRoom r.0
  same_room r f h =
      let same : capacity r.0.buffer_size r.0.buf ≡ capacity b.buffer_size b.buf =
        rw (f.same_buf, f.same_size) refl in
      omega (arith, same, f.same_max, f.not_grown)

  abbrev after_flush : WriteBuffer × FileWriter × Bool → WriteBuffer × FileWriter × Bool
  after_flush r = if r.2 then (record r.0 { pos = pos }, r.1, true) else r

  placed :
      (b' : WriteBuffer) (w' : FileWriter) → IsSynced b' w' → IsSynced (record b' { pos = pos }) w'
  placed b' w' s' = record { from_zero = s'.from_zero; within = s'.within; at_wpos = s'.at_wpos }

  jumped :
      (r : WriteBuffer × FileWriter × Bool) → IsFlushed b w r → IsSought b w pos (after_flush r)
  jumped (b', w', false) f = record {
    synced = f.synced;
    kept = f.kept;
    same_max = f.same_max;
    room = same_room _ f;
    reached = λ e. cc;
  }
  jumped (b', w', true) f = record {
    synced = placed b' w' f.synced;
    kept =
        ap (write_at w'.content pos)
          (buffered-empty (record b' { pos = pos }) w' (placed b' w' f.synced) (f.emptied refl).0)
        ∙ (f.emptied refl).1;
    same_max = f.same_max;
    room = same_room _ f;
    reached = λ e. omega (arith, (f.emptied refl).0);
  }

  pub seek-IsSought :
      (io : Io)
      → (r : WriteBuffer × FileWriter × Bool) × (seek io pos b w ≡ ok r) × IsSought b w pos r
  unfolding seek
  seek-IsSought io =
      let (r, returned, f) = flush-IsFlushed b w s io in
      elim (Bool-cases (b.pos + (b.right - b.left) == pos)) [
        | inl e ↦ (
          (b, w, true),
          rw e refl,
          record {
            synced = s;
            kept = refl;
            same_max = refl;
            room = λ h. h;
            reached = λ _. (==_iff _ _).0 e;
          },
        )
        | inr e ↦ (after_flush r, rw (e, returned) refl, jumped r f)
      ]

  -- Where the file works, Seek succeeds.
  pub seek-works : (r : WriteBuffer × FileWriter × Bool) → seek works pos b w ≡ ok r → r.2 ≡ true
  unfolding seek
  seek-works r e =
      let (q, returned, f) = flush-IsFlushed b w s works in
      elim (Bool-cases (b.pos + (b.right - b.left) == pos)) [
        | inl here ↦
            let run : seek works pos b w ≡ ok (b, w, true) = rw here refl in
            ap (λ x. x.2) (ok-injective (sym e ∙ run))
        | inr away ↦
            let run : seek works pos b w ≡ ok (after_flush q) = rw (away, returned) refl in
            ap (λ x. x.2) (ok-injective (sym e ∙ run)) ∙ rw (flush-works b w s q returned) refl
      ]
