-- ===== src/Encoding/Buildin.antt =====
-- tracer/encoding/buildin.go: numbers in big-endian order, strings, slices.
pub mod Format
use goapptrace.Base.{
  ℕ, zero, suc, ◌+◌, ◌*◌, ◌/◌, ◌%◌, Bool, List, [], ◌∷◌, ◌++◌, Outcome, ok, panic, leb, ltb, ◌==◌,
  not, if◌then◌else◌, length, take, drop, min,
}
use goapptrace.Encoding.Slices.{Marshal, Unmarshal, ◌&>◌, ◌>>=◌, map_unmarshal}

-- The `k` low bytes of `v`, most significant first.
unfoldable pub be_bytes : ℕ → ℕ → List ℕ
be_bytes zero v = []
be_bytes (suc k) v = be_bytes k (v / 256) ++ (v % 256 ∷ [])

unfoldable pub be_value : ℕ → List ℕ → ℕ
be_value acc [] = acc
be_value acc (b ∷ bs) = be_value (acc * 256 + b) bs

-- binary.BigEndian.PutUint64(buf[:8], val), PutUint32(buf[:4], val)
put_uint : ℕ → ℕ → Marshal
put_uint k v buf = if leb k (length buf) then ok (be_bytes k v ++ drop k buf, k) else panic

-- binary.BigEndian.Uint64(buf[:8]), Uint32(buf[:4])
get_uint : ℕ → Unmarshal ℕ
get_uint k buf = if leb k (length buf) then ok (be_value 0 (take k buf), k) else panic

unfoldable pub marshal_uint64 : ℕ → Marshal
unfolding put_uint
marshal_uint64 v = put_uint 8 v

unfoldable pub unmarshal_uint64 : Unmarshal ℕ
unfolding get_uint
unmarshal_uint64 = get_uint 8

unfoldable pub marshal_uint32 : ℕ → Marshal
unfolding put_uint
marshal_uint32 v = put_uint 4 v

unfoldable pub unmarshal_uint32 : Unmarshal ℕ
unfolding get_uint
unmarshal_uint32 = get_uint 4

-- buf[0] = val
unfoldable pub marshal_uint8 : ℕ → Marshal
marshal_uint8 v [] = panic
marshal_uint8 v (b ∷ buf) = ok (v ∷ buf, 1)

unfoldable pub unmarshal_uint8 : Unmarshal ℕ
unmarshal_uint8 [] = panic
unmarshal_uint8 (b ∷ buf) = ok (b, 1)

unfoldable pub marshal_bool : Bool → Marshal
unfolding marshal_uint8
marshal_bool v = marshal_uint8 (if v then 1 else 0)

unfoldable pub unmarshal_bool : Unmarshal Bool
unfolding map_unmarshal unmarshal_uint8
unmarshal_bool = map_unmarshal (λ b. not (b == 0)) unmarshal_uint8

-- copy(buf, str) stops at the end of the shorter one.
unfoldable pub copy_bytes : List ℕ → Marshal
copy_bytes str buf = let n = min (length buf) (length str) in ok (take n str ++ drop n buf, n)

unfoldable pub marshal_string : List ℕ → Marshal
unfolding ◌&>◌ copy_bytes marshal_uint64
marshal_string str = marshal_uint64 (length str) &> copy_bytes str

-- string(buf[:length])
unfoldable pub read_bytes : ℕ → Unmarshal (List ℕ)
read_bytes n buf = if leb n (length buf) then ok (take n buf, n) else panic

unfoldable pub unmarshal_string : Unmarshal (List ℕ)
unfolding ◌>>=◌ unmarshal_uint64 read_bytes
unmarshal_string = unmarshal_uint64 >>= read_bytes

unfoldable pub size_string : List ℕ → ℕ
size_string str = 8 + length str

-- The loops that the slice functions share: for i := range xs { total += f(buf[total:], xs[i]) }.
unfoldable pub marshal_each {ℓ} : {A : Type ℓ} → (A → Marshal) → List A → Marshal
unfolding ◌&>◌
marshal_each f [] buf = ok (buf, 0)
marshal_each f (x ∷ xs) buf = (f x &> marshal_each f xs) buf

unfoldable pub unmarshal_each {ℓ} : {A : Type ℓ} → Unmarshal A → ℕ → Unmarshal (List A)
unfolding ◌>>=◌ map_unmarshal
unmarshal_each u zero buf = ok ([], 0)
unmarshal_each u (suc n) buf = (u >>= λ x. map_unmarshal (λ xs. x ∷ xs) (unmarshal_each u n)) buf

-- The length as a uint64, then the elements.
unfoldable pub marshal_slice {ℓ} : {A : Type ℓ} → (A → Marshal) → List A → Marshal
unfolding ◌&>◌ marshal_uint64 marshal_each
marshal_slice f xs = marshal_uint64 (length xs) &> marshal_each f xs

unfoldable pub unmarshal_slice {ℓ} : {A : Type ℓ} → Unmarshal A → Unmarshal (List A)
unfolding ◌>>=◌ unmarshal_uint64 unmarshal_each
unmarshal_slice u = unmarshal_uint64 >>= unmarshal_each u

unfoldable pub size_each {ℓ} : {A : Type ℓ} → (A → ℕ) → List A → ℕ
size_each size [] = 0
size_each size (x ∷ xs) = size x + size_each size xs

unfoldable pub marshal_string_slice : List (List ℕ) → Marshal
marshal_string_slice strs = marshal_slice marshal_string strs

unfoldable pub unmarshal_string_slice : Unmarshal (List (List ℕ))
unmarshal_string_slice = unmarshal_slice unmarshal_string

unfoldable pub size_string_slice : List (List ℕ) → ℕ
unfolding size_each size_string
size_string_slice strs = 8 + size_each size_string strs

unfoldable pub marshal_uintptr : ℕ → Marshal
unfolding marshal_uint64
marshal_uintptr ptr = marshal_uint64 ptr

unfoldable pub unmarshal_uintptr : Unmarshal ℕ
unfolding unmarshal_uint64
unmarshal_uintptr = unmarshal_uint64

unfoldable pub marshal_uintptr_slice : List ℕ → Marshal
unfolding marshal_slice marshal_uint64
marshal_uintptr_slice xs = marshal_slice marshal_uint64 xs

-- `*slicep = (*slicep)[:length]` panics past the capacity of the slice that the caller hands in.
unfoldable pub resized : ℕ → ℕ → Unmarshal (List ℕ)
unfolding unmarshal_each unmarshal_uint64
resized cap n buf =
    let rest = unmarshal_each unmarshal_uint64 n buf in if leb n cap then rest else panic

unfoldable pub unmarshal_uintptr_slice : ℕ → Unmarshal (List ℕ)
unfolding ◌>>=◌ unmarshal_uint64 resized
unmarshal_uintptr_slice cap = unmarshal_uint64 >>= resized cap
