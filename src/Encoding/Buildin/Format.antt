-- ===== src/Encoding/Buildin/Format.antt =====
-- The bytes that each function of buildin.go writes, and that its partner reads back.
use goapptrace.Base.{
  ℕ, zero, suc, ◌+◌, ◌*◌, ◌/◌, ◌%◌, ◌^◌, ◌≤◌, ◌<◌, ◌≡◌, refl, ◌∙◌, arith, List, [], ◌∷◌, ◌++◌, true,
  leb, le→leb, length, take, min, length-append, take-append_length, take-length, All,
}
use goapptrace.Types.{IsUint64, IsUint32, IsString}
use goapptrace.Encoding.Slices.{
  Marshal, Unmarshal, map_unmarshal, Writes, Reads, &>-Writes, >>=-Reads, map_unmarshal-Reads,
}
use goapptrace.Encoding.Buildin.{
  be_bytes, be_value, put_uint, get_uint, marshal_uint64, unmarshal_uint64, marshal_uint32,
  unmarshal_uint32, marshal_uint8, unmarshal_uint8, copy_bytes, marshal_string, read_bytes,
  unmarshal_string, marshal_each, unmarshal_each, marshal_slice, unmarshal_slice, resized,
  unmarshal_uintptr_slice, size_string, size_each,
}
use native.Mathlib.Nat.{pow-suc}

pub length-be_bytes : (k v : ℕ) → length (be_bytes k v) ≡ k
unfolding be_bytes
length-be_bytes zero v = refl
length-be_bytes (suc k) v =
    omega (arith, length-append (be_bytes k (v / 256)) (v % 256 ∷ []), length-be_bytes k (v / 256))

be_value-append :
    (acc : ℕ) (xs : List ℕ) (b : ℕ) → be_value acc (xs ++ (b ∷ [])) ≡ be_value acc xs * 256 + b
unfolding be_value
be_value-append acc [] b = refl
be_value-append acc (x ∷ xs) b = be_value-append (acc * 256 + x) xs b

-- Big-endian bytes read back the number.
pub be_value-be_bytes : (k v : ℕ) → v < 256 ^ k → be_value 0 (be_bytes k v) ≡ v
unfolding be_bytes
be_value-be_bytes zero v h = unfold be_value in omega arith
be_value-be_bytes (suc k) v h =
    be_value-append 0 (be_bytes k (v / 256)) (v % 256)
    ∙ rw (be_value-be_bytes k (v / 256) (omega (arith, pow-suc 256 k))) (omega arith)

put_uint-Writes : (k v : ℕ) → Writes (put_uint k v) (be_bytes k v)
unfolding put_uint
put_uint-Writes k v buf h =
    let e = length-be_bytes k v in rw e (rw (le→leb k (length buf) (omega arith)))

-- A read of as many bytes as `xs` has sees `xs` alone.
take-append_eq : (n : ℕ) (xs rest : List ℕ) → length xs ≡ n → take n (xs ++ rest) ≡ xs
take-append_eq n xs rest e = rw (← e) (take-append_length xs rest)

has_room : (n : ℕ) (xs rest : List ℕ) → length xs ≡ n → leb n (length (xs ++ rest)) ≡ true
has_room n xs rest e = le→leb n _ (omega (arith, length-append xs rest))

get_uint-Reads : (k v : ℕ) → v < 256 ^ k → Reads (get_uint k) v (be_bytes k v)
unfolding get_uint
get_uint-Reads k v h rest =
    let e = length-be_bytes k v in
    rw (
      has_room k (be_bytes k v) rest e,
      take-append_eq k (be_bytes k v) rest e,
      be_value-be_bytes k v h,
      e,
    )

-- Each function of the file writes the bytes named here, and its partner reads them.
unfoldable pub uint64_bytes : ℕ → List ℕ
uint64_bytes v = be_bytes 8 v

unfoldable pub uint32_bytes : ℕ → List ℕ
uint32_bytes v = be_bytes 4 v

pub length-uint64_bytes : (v : ℕ) → length (uint64_bytes v) ≡ 8
unfolding uint64_bytes
length-uint64_bytes v = length-be_bytes 8 v

pub length-uint32_bytes : (v : ℕ) → length (uint32_bytes v) ≡ 4
unfolding uint32_bytes
length-uint32_bytes v = length-be_bytes 4 v

pub marshal_uint64-Writes : (v : ℕ) → Writes (marshal_uint64 v) (uint64_bytes v)
unfolding marshal_uint64 uint64_bytes
marshal_uint64-Writes v = put_uint-Writes 8 v

pub unmarshal_uint64-Reads : (v : ℕ) → IsUint64 v → Reads unmarshal_uint64 v (uint64_bytes v)
unfolding unmarshal_uint64 uint64_bytes
unmarshal_uint64-Reads v h = get_uint-Reads 8 v h

pub marshal_uint32-Writes : (v : ℕ) → Writes (marshal_uint32 v) (uint32_bytes v)
unfolding marshal_uint32 uint32_bytes
marshal_uint32-Writes v = put_uint-Writes 4 v

pub unmarshal_uint32-Reads : (v : ℕ) → IsUint32 v → Reads unmarshal_uint32 v (uint32_bytes v)
unfolding unmarshal_uint32 uint32_bytes
unmarshal_uint32-Reads v h = get_uint-Reads 4 v h

pub marshal_uint8-Writes : (v : ℕ) → Writes (marshal_uint8 v) (v ∷ [])
unfolding marshal_uint8
marshal_uint8-Writes v [] h = absurd (omega arith)
marshal_uint8-Writes v (b ∷ buf) h = refl

pub unmarshal_uint8-Reads : (v : ℕ) → Reads unmarshal_uint8 v (v ∷ [])
unfolding unmarshal_uint8
unmarshal_uint8-Reads v rest = refl

copy_bytes-Writes : (str : List ℕ) → Writes (copy_bytes str) str
unfolding copy_bytes
copy_bytes-Writes str buf h =
    let e : min (length buf) (length str) ≡ length str = omega arith in rw (e, take-length str)

read_bytes-Reads : (str : List ℕ) → Reads (read_bytes (length str)) str str
unfolding read_bytes
read_bytes-Reads str rest = rw (has_room (length str) str rest refl, take-append_length str rest)

unfoldable pub string_bytes : List ℕ → List ℕ
string_bytes str = uint64_bytes (length str) ++ str

pub length-string_bytes : (str : List ℕ) → length (string_bytes str) ≡ size_string str
unfolding string_bytes size_string
length-string_bytes str =
    omega (arith, length-append (uint64_bytes (length str)) str, length-uint64_bytes (length str))

pub marshal_string-Writes : (str : List ℕ) → Writes (marshal_string str) (string_bytes str)
unfolding marshal_string string_bytes
marshal_string-Writes str =
    &>-Writes _ _ _ str (marshal_uint64-Writes (length str)) (copy_bytes-Writes str)

pub unmarshal_string-Reads :
    (str : List ℕ) → IsString str → Reads unmarshal_string str (string_bytes str)
unfolding unmarshal_string string_bytes
unmarshal_string-Reads str h =
    >>=-Reads unmarshal_uint64 read_bytes (length str) str _ str
      (unmarshal_uint64-Reads (length str) (omega arith)) (read_bytes-Reads str)

module _ {ℓ} {A : Type ℓ} (bytes : A → List ℕ) where
  unfoldable pub each_bytes : List A → List ℕ
  each_bytes [] = []
  each_bytes (x ∷ xs) = bytes x ++ each_bytes xs

  unfoldable pub slice_bytes : List A → List ℕ
  slice_bytes xs = uint64_bytes (length xs) ++ each_bytes xs

  pub length-each_bytes :
      (size : A → ℕ)
      → ((x : A) → length (bytes x) ≡ size x)
      → (xs : List A) → length (each_bytes xs) ≡ size_each size xs
  unfolding each_bytes size_each
  length-each_bytes size h [] = refl
  length-each_bytes size h (x ∷ xs) =
      omega (arith, length-append (bytes x) (each_bytes xs), h x, length-each_bytes size h xs)

  pub length-slice_bytes :
      (size : A → ℕ)
      → ((x : A) → length (bytes x) ≡ size x)
      → (xs : List A) → length (slice_bytes xs) ≡ 8 + size_each size xs
  unfolding slice_bytes
  length-slice_bytes size h xs = omega (
    arith,
    length-append (uint64_bytes (length xs)) (each_bytes xs),
    length-uint64_bytes (length xs),
    length-each_bytes size h xs,
  )

  marshal_each-Writes :
      (f : A → Marshal)
      → ((x : A) → Writes (f x) (bytes x))
      → (xs : List A) → Writes (marshal_each f xs) (each_bytes xs)
  unfolding marshal_each each_bytes
  marshal_each-Writes f w [] buf h = refl
  marshal_each-Writes f w (x ∷ xs) buf h =
      &>-Writes (f x) (marshal_each f xs) (bytes x) (each_bytes xs) (w x)
        (marshal_each-Writes f w xs) buf h

  pub marshal_slice-Writes :
      (f : A → Marshal)
      → ((x : A) → Writes (f x) (bytes x))
      → (xs : List A) → Writes (marshal_slice f xs) (slice_bytes xs)
  unfolding marshal_slice slice_bytes
  marshal_slice-Writes f w xs =
      &>-Writes _ _ _ (each_bytes xs) (marshal_uint64-Writes (length xs))
        (marshal_each-Writes f w xs)

  module _ {κ} (P : A → Type κ) (u : Unmarshal A) (r : (x : A) → P x → Reads u x (bytes x)) where
    pub unmarshal_each-Reads :
        (xs : List A) → All P xs → Reads (unmarshal_each u (length xs)) xs (each_bytes xs)
    unfolding unmarshal_each each_bytes
    unmarshal_each-Reads [] h rest = refl
    unmarshal_each-Reads (x ∷ xs) (hx, hxs) rest =
        >>=-Reads u (λ y. map_unmarshal (λ ys. y ∷ ys) (unmarshal_each u (length xs))) x (x ∷ xs)
          (bytes x) (each_bytes xs) (r x hx)
          (map_unmarshal-Reads (λ ys. x ∷ ys) (unmarshal_each u (length xs)) xs (each_bytes xs)
            (unmarshal_each-Reads xs hxs))
          rest

    pub unmarshal_slice-Reads :
        (xs : List A)
        → All P xs × (length xs < 2 ^ 63)
        → Reads (unmarshal_slice u) xs (slice_bytes xs)
    unfolding unmarshal_slice slice_bytes
    unmarshal_slice-Reads xs (hxs, n) =
        >>=-Reads unmarshal_uint64 (unmarshal_each u) (length xs) xs _ (each_bytes xs)
          (unmarshal_uint64-Reads (length xs) (omega arith)) (unmarshal_each-Reads xs hxs)

resized-Reads :
    (cap : ℕ) (xs : List ℕ)
    → All IsUint64 xs
    → length xs ≤ cap
    → Reads (resized cap (length xs)) xs (each_bytes uint64_bytes xs)
unfolding resized
resized-Reads cap xs hxs n rest =
    rw (le→leb (length xs) cap n) (
      unmarshal_each-Reads uint64_bytes IsUint64 unmarshal_uint64 unmarshal_uint64-Reads xs hxs
        rest)

-- Into a slice of capacity `cap` that the elements fit.
pub unmarshal_uintptr_slice-Reads :
    (cap : ℕ) (xs : List ℕ)
    → All IsUint64 xs
    → length xs ≤ cap
    → length xs < 2 ^ 63
    → Reads (unmarshal_uintptr_slice cap) xs (slice_bytes uint64_bytes xs)
unfolding unmarshal_uintptr_slice slice_bytes
unmarshal_uintptr_slice-Reads cap xs hxs n m =
    >>=-Reads unmarshal_uint64 (resized cap) (length xs) xs _ (each_bytes uint64_bytes xs)
      (unmarshal_uint64-Reads (length xs) (omega arith)) (resized-Reads cap xs hxs n)
