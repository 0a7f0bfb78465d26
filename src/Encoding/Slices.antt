-- ===== src/Encoding/Slices.antt =====
-- What tracer/encoding does with `buf []byte`: a marshaller writes at the front of a slice and
-- returns the number of bytes, an unmarshaller reads from the front. A slice is the list of its
-- bytes and its capacity is its length; writing through it is returning the new list.
use goapptrace.Base.{
  ℕ, zero, suc, ◌+◌, ◌≤◌, ◌≡◌, refl, sym, ap, ◌∙◌, arith, List, [], ◌∷◌, ◌++◌, append_assoc,
  Outcome, ok, panic, leb, le→leb, if◌then◌else◌, length, take, drop, length-append, length-drop,
  take-append_length, drop-append_length, drop-drop, All,
}
use goapptrace.Base

abbrev pub Marshal : Type 0
Marshal = List ℕ → Outcome (List ℕ × ℕ)

abbrev pub Unmarshal {ℓ} : Type ℓ → Type ℓ
Unmarshal A = List ℕ → Outcome (A × ℕ)

-- buf[n:]
unfoldable pub slice_from : ℕ → List ℕ → Outcome (List ℕ)
slice_from n buf = if leb n (length buf) then ok (drop n buf) else panic

-- total += k(buf[total:]), after m has set total
infixr 40 ◌&>◌
unfoldable pub ◌&>◌ : Marshal → Marshal → Marshal
unfolding slice_from
◌&>◌ m k buf = Base.◌>>=◌ (m buf) λ p.
    Base.◌>>=◌ (slice_from p.1 p.0)
      λ rest. Base.◌>>=◌ (k rest) λ q. ok (take p.1 p.0 ++ q.0, p.1 + q.1)

-- x, n = u(buf[total:]); total += n
infixl 5 ◌>>=◌
unfoldable pub ◌>>=◌ {ℓ κ} :
    {A : Type ℓ} {B : Type κ} → Unmarshal A → (A → Unmarshal B) → Unmarshal B
unfolding slice_from
◌>>=◌ u f buf =
    Base.◌>>=◌ (u buf)
      λ p. Base.◌>>=◌ (slice_from p.1 buf) λ rest. Base.◌>>=◌ (f p.0 rest) λ q. ok (q.0, p.1 + q.1)

-- The last field: what it returns completes the value.
unfoldable pub map_unmarshal {ℓ κ} : {A : Type ℓ} {B : Type κ} → (A → B) → Unmarshal A → Unmarshal B
map_unmarshal f u buf = Base.◌>>=◌ (u buf) λ p. ok (f p.0, p.1)

-- `m` writes `bytes` at the front of every slice that has the room, leaves the rest of it alone and
-- returns their number.
abbrev pub Writes : Marshal → List ℕ → Type 0
Writes m bytes =
    (buf : List ℕ)
    → length bytes ≤ length buf
    → m buf ≡ ok (bytes ++ drop (length bytes) buf, length bytes)

-- `u` reads `a` off `bytes`, whatever follows them.
abbrev pub Reads {ℓ} : {A : Type ℓ} → Unmarshal A → A → List ℕ → Type ℓ
Reads u a bytes = (rest : List ℕ) → u (bytes ++ rest) ≡ ok (a, length bytes)

slice_from-append : (xs ys : List ℕ) → slice_from (length xs) (xs ++ ys) ≡ ok ys
unfolding slice_from
slice_from-append xs ys = rw (
  le→leb (length xs) (length (xs ++ ys)) (omega (arith, length-append xs ys)),
  drop-append_length,
)

pub &>-Writes :
    (m k : Marshal) (xs ys : List ℕ) → Writes m xs → Writes k ys → Writes (m &> k) (xs ++ ys)
unfolding ◌&>◌
&>-Writes m k xs ys wm wk buf h = rw (
  wm buf (omega (arith, length-append xs ys)),
  slice_from-append xs (drop (length xs) buf),
  wk (drop (length xs) buf) (omega (arith, length-append xs ys, length-drop (length xs) buf)),
  take-append_length,
  drop-drop,
  length-append xs ys,
  append_assoc,
)

pub >>=-Reads {ℓ κ} :
    {A : Type ℓ} {B : Type κ} (u : Unmarshal A) (f : A → Unmarshal B) (a : A) (b : B)
    (xs ys : List ℕ)
    → Reads u a xs
    → Reads (f a) b ys
    → Reads (u >>= f) b (xs ++ ys)
unfolding ◌>>=◌
>>=-Reads u f a b xs ys ru rf rest = rw (
  append_assoc xs ys rest,
  ru (ys ++ rest),
  slice_from-append xs (ys ++ rest),
  rf rest,
  length-append xs ys,
)

pub map_unmarshal-Reads {ℓ κ} :
    {A : Type ℓ} {B : Type κ} (f : A → B) (u : Unmarshal A) (a : A) (xs : List ℕ)
    → Reads u a xs
    → Reads (map_unmarshal f u) (f a) xs
unfolding map_unmarshal
map_unmarshal-Reads f u a xs r rest = rw (r rest)

-- On `buf` the marshaller `m` writes `n` bytes and no others, and `u` reads `a` back off them.
abbrev pub RoundTrips {ℓ} : {A : Type ℓ} → Marshal → Unmarshal A → A → ℕ → List ℕ → Type ℓ
RoundTrips m u a n buf =
    (out : List ℕ) × (m buf ≡ ok (out, n))
    × (u out ≡ ok (a, n))
    × (length out ≡ length buf)
    × (drop n out ≡ drop n buf)

pub Writes-Reads-RoundTrips {ℓ} :
    {A : Type ℓ} (m : Marshal) (u : Unmarshal A) (a : A) (bytes : List ℕ) (n : ℕ)
    → Writes m bytes
    → Reads u a bytes
    → length bytes ≡ n
    → (buf : List ℕ) → n ≤ length buf
    → RoundTrips m u a n buf
Writes-Reads-RoundTrips m u a bytes n w r e buf h =
    let tail : List ℕ = drop n buf in
    (
      bytes ++ tail,
      rw (← e) (w buf (omega arith)),
      rw (← e) (r (drop (length bytes) buf)),
      omega (arith, length-append bytes tail, length-drop n buf),
      rw (← e) (drop-append_length bytes (drop (length bytes) buf)),
    )
