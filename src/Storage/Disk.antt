-- ===== src/Storage/Disk.antt =====
-- What tracer/storage uses of package os: a file is the list of its bytes, and a *os.File has an
-- offset in it. Writing beyond the end fills the gap with zeros.
use goapptrace.Base.{
  ℕ, zero, suc, ◌+◌, ◌≤◌, ◌≡◌, refl, sym, ap, ◌∙◌, arith, List, [], ◌∷◌, ◌++◌, append-nil, length,
  take, drop, take-length, drop_beyond,
}
use native.Mathlib.Nat.{zero-add, suc-add, add-zero}

-- The file after Write of the bytes at the offset.
abbrev pub write_at : List ℕ → ℕ → List ℕ → List ℕ
write_at f p [] = f
write_at [] zero (b ∷ bs) = b ∷ bs
write_at [] (suc p) (b ∷ bs) = 0 ∷ write_at [] p (b ∷ bs)
write_at (x ∷ f) zero (b ∷ bs) = b ∷ write_at f zero bs
write_at (x ∷ f) (suc p) (b ∷ bs) = x ∷ write_at f p (b ∷ bs)

-- The bytes of Read at the offset into a slice of length `n`: as many of them as there are.
abbrev pub read_at : List ℕ → ℕ → ℕ → List ℕ
read_at f p n = take n (drop p f)

pub write_at_end : (f b : List ℕ) → write_at f (length f) b ≡ f ++ b
write_at_end [] [] = refl
write_at_end [] (b ∷ bs) = refl
write_at_end (x ∷ f) [] = ap (◌∷◌ x) (sym (append-nil f))
write_at_end (x ∷ f) (b ∷ bs) = ap (◌∷◌ x) (write_at_end f (b ∷ bs))

-- Two writes one behind the other are one.
pub write_at-write_at_next :
    (f : List ℕ) (p : ℕ) (a b : List ℕ)
    → write_at (write_at f p a) (p + length a) b ≡ write_at f p (a ++ b)
write_at-write_at_next f p [] b = rw add-zero
write_at-write_at_next f p (x ∷ a) [] = ap (λ b. write_at f p (x ∷ b)) (sym (append-nil a))
write_at-write_at_next [] zero (x ∷ a) (b ∷ bs) = rw zero-add (ap (◌∷◌ x) (write_at_end a (b ∷ bs)))
write_at-write_at_next [] (suc p) (x ∷ a) (b ∷ bs) =
    rw suc-add (ap (◌∷◌ 0) (write_at-write_at_next [] p (x ∷ a) (b ∷ bs)))
write_at-write_at_next (y ∷ f) zero (x ∷ a) (b ∷ bs) =
    rw zero-add (ap (◌∷◌ x) (rw zero-add at (write_at-write_at_next f zero a (b ∷ bs))))
write_at-write_at_next (y ∷ f) (suc p) (x ∷ a) (b ∷ bs) =
    rw suc-add (ap (◌∷◌ y) (write_at-write_at_next f p (x ∷ a) (b ∷ bs)))

write_at_prefix : (k : ℕ) (a : List ℕ) → write_at (take k a) 0 a ≡ a
write_at_prefix zero [] = refl
write_at_prefix (suc k) [] = refl
write_at_prefix zero (x ∷ a) = refl
write_at_prefix (suc k) (x ∷ a) = ap (◌∷◌ x) (write_at_prefix k a)

-- A write that comes after one of its beginning leaves no trace of that.
pub write_at-write_at_again :
    (f : List ℕ) (p k : ℕ) (a : List ℕ) → write_at (write_at f p (take k a)) p a ≡ write_at f p a
write_at-write_at_again f p zero a = refl
write_at-write_at_again f p (suc k) [] = refl
write_at-write_at_again [] zero (suc k) (x ∷ a) = ap (◌∷◌ x) (write_at_prefix k a)
write_at-write_at_again [] (suc p) (suc k) (x ∷ a) =
    ap (◌∷◌ 0) (write_at-write_at_again [] p (suc k) (x ∷ a))
write_at-write_at_again (y ∷ f) zero (suc k) (x ∷ a) =
    ap (◌∷◌ x) (write_at-write_at_again f zero k a)
write_at-write_at_again (y ∷ f) (suc p) (suc k) (x ∷ a) =
    ap (◌∷◌ y) (write_at-write_at_again f p (suc k) (x ∷ a))

pub read_at-write_at : (f : List ℕ) (p : ℕ) (a : List ℕ) → read_at (write_at f p a) p (length a) ≡ a
read_at-write_at f p [] = refl
read_at-write_at [] zero (x ∷ a) = ap (◌∷◌ x) (take-length a)
read_at-write_at [] (suc p) (x ∷ a) = read_at-write_at [] p (x ∷ a)
read_at-write_at (y ∷ f) zero (x ∷ a) = ap (◌∷◌ x) (read_at-write_at f zero a)
read_at-write_at (y ∷ f) (suc p) (x ∷ a) = read_at-write_at f p (x ∷ a)

-- The bytes before what is written stay.
pub read_at-write_at_before :
    (f : List ℕ) (p q n : ℕ) (a : List ℕ)
    → q + n ≤ p
    → q + n ≤ length f
    → read_at (write_at f p a) q n ≡ read_at f q n
read_at-write_at_before f p q n [] h k = refl
read_at-write_at_before f p q zero (x ∷ a) h k = refl
read_at-write_at_before [] p q (suc n) (x ∷ a) h k = absurd (omega arith)
read_at-write_at_before (y ∷ f) zero q (suc n) (x ∷ a) h k = absurd (omega arith)
read_at-write_at_before (y ∷ f) (suc p) zero (suc n) (x ∷ a) h k =
    ap (◌∷◌ y) (read_at-write_at_before f p zero n (x ∷ a) (omega arith) (omega arith))
read_at-write_at_before (y ∷ f) (suc p) (suc q) (suc n) (x ∷ a) h k =
    read_at-write_at_before f p q (suc n) (x ∷ a) (omega arith) (omega arith)

-- The bytes behind what is written stay.
pub read_at-write_at_behind :
    (f : List ℕ) (p q n : ℕ) (a : List ℕ)
    → p + length a ≤ q
    → read_at (write_at f p a) q n ≡ read_at f q n
read_at-write_at_behind f p q n [] h = refl
read_at-write_at_behind f p zero n (x ∷ a) h = absurd (omega arith)
read_at-write_at_behind [] zero (suc q) n (x ∷ a) h = ap (take n) (drop_beyond q a (omega arith))
read_at-write_at_behind [] (suc p) (suc q) n (x ∷ a) h =
    read_at-write_at_behind [] p q n (x ∷ a) (omega arith)
    ∙ ap (take n) (drop_beyond q [] (omega arith))
read_at-write_at_behind (y ∷ f) zero (suc q) n (x ∷ a) h =
    read_at-write_at_behind f zero q n a (omega arith)
read_at-write_at_behind (y ∷ f) (suc p) (suc q) n (x ∷ a) h =
    read_at-write_at_behind f p q n (x ∷ a) (omega arith)
