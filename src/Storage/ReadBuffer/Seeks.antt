-- ===== src/Storage/ReadBuffer/Seeks.antt =====
-- Where a ReadBuffer goes by Seek.
use goapptrace.Base.{
  ℕ, ◌+◌, ◌-◌, ◌≡◌, refl, sym, ◌∙◌, subst, arith, List, ltb, ◌==◌, ==_iff, ◌&&◌, Bool-cases, inl,
  inr, if◌then◌else◌,
}
use goapptrace.Storage.ReadBuffer.{ReadBuffer, drop_cache, seek}
use goapptrace.Storage.ReadBuffer.Reads.{IsSized}
use goapptrace.Storage.ReadBuffer.Cached.{IsCached}

abbrev pub empty_cache : ℕ → ReadBuffer → ReadBuffer
empty_cache pos b = record b { pos = pos; left = 0; right = 0 }

-- A Seek that moves drops the whole cache.
pub seek-empty_cache :
    (pos : ℕ) (b : ReadBuffer) → seek pos b ≡ (if b.pos == pos then b else empty_cache pos b)
unfolding seek
seek-empty_cache pos b = elim (Bool-cases (b.pos == pos)) [
  | inl e ↦ rw e refl
  | inr e ↦ elim (Bool-cases (ltb b.pos pos && ltb pos (b.pos + (b.right - b.left)))) [
    | inl inside ↦ rw (e, inside) refl
    | inr outside ↦ rw (e, outside) refl
  ]
]

-- What holds of a ReadBuffer that has been sought.
pub record IsPlaced (file : List ℕ) (n : ℕ) (pos : ℕ) (b b' : ReadBuffer) : Type 0 where
  pub there : b'.pos ≡ pos
  pub same_rpos : b'.rpos ≡ b.rpos
  pub sized : IsSized n b → IsSized n b'
  pub cached : IsCached file b → IsCached file b'

pub empty-IsCached : (file : List ℕ) (b : ReadBuffer) → IsCached file (drop_cache b)
empty-IsCached file b = record { ordered = omega arith; within = omega arith; same_bytes = refl }

pub seek-IsPlaced :
    (file : List ℕ) (n pos : ℕ) (b : ReadBuffer) → IsPlaced file n pos b (seek pos b)
seek-IsPlaced file n pos b = elim (Bool-cases (b.pos == pos)) [
  | inl e ↦
      subst (IsPlaced file n pos b) (sym (seek-empty_cache pos b ∙ rw e refl)) (record {
        there = (==_iff b.pos pos).0 e;
        same_rpos = refl;
        sized = λ s. s;
        cached = λ c. c;
      })
  | inr e ↦ subst (IsPlaced file n pos b) (sym (seek-empty_cache pos b ∙ rw e refl)) (record {
    there = refl;
    same_rpos = refl;
    sized = λ s. record { positive = s.positive; exact = s.exact; large = s.large; full = s.full };
    cached = λ c. empty-IsCached file (record b { pos = pos });
  })
]
