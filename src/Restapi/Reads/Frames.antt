-- ===== src/Restapi/Reads/Frames.antt =====
-- The rows that a search of frames or of calls reads.
use goapptrace.Base.{
  ℕ, zero, suc, max, ◌+◌, ◌-◌, ◌^◌, ◌≤◌, ◌<◌, ◌≡◌, refl, sym, ap, subst, ◌∙◌, arith, Bool, true,
  false, List, [], ◌∷◌, ◌++◌, map, Option, some, length, get_elem?, All, ◌⊎◌, inl, inr,
}
use goapptrace.Base.Int.{ℤ, pos, negsuc, incr_int64, incr_int64-pos, leb_ℤ}
use goapptrace.Types.{FuncLog}
use goapptrace.Restapi.Reads.{Cursor, gives, start, load, read_call, read_frame, put, read_all}

-- The rows of one call from an offset on.
abbrev pub frames_from : FuncLog → ℕ → ℕ → List (FuncLog × ℤ)
frames_from l zero o = []
frames_from l (suc k) o = (l, pos o) ∷ frames_from l k (o + 1)

-- Every frame of every call, in their order, and a row for a call that has none.
abbrev pub frame_rows : List FuncLog → List (FuncLog × ℤ)
frame_rows [] = []
frame_rows (l ∷ ls) = frames_from l (max 1 (length l.frames)) 0 ++ frame_rows ls

-- A read for each of them.
abbrev pub frame_count : List FuncLog → ℕ
frame_count [] = 0
frame_count (l ∷ ls) = max 1 (length l.frames) + frame_count ls

-- The store holds the calls, and each is read.
abbrev pub Stores : ℕ → (ℤ → Option FuncLog) → ℕ → List FuncLog → Type 0
Stores records get_nolock i ls =
    (records ≡ i + length ls)
    × (records < 2 ^ 63)
    × ((j : ℕ) → get_nolock (pos (i + j)) ≡ get_elem? ls j)

-- No row of the FuncLog is left.
abbrev IsDone : Cursor → Type 0
IsDone c =
    (c.offset ≡ negsuc 0)
    ⊎ ((o : ℕ) × (c.offset ≡ pos o) × (o + 1 < 2 ^ 63) × (length c.func_log.frames ≤ o + 1))

prepend :
    List (FuncLog × ℤ) → Option (List (FuncLog × ℤ) × Bool) → Option (List (FuncLog × ℤ) × Bool)
prepend [] o = o
prepend (r ∷ rs) o = put r (prepend rs o)

prepend-some :
    (rs ss : List (FuncLog × ℤ)) (b : Bool) → prepend rs (some (ss, b)) ≡ some (rs ++ ss, b)
unfolding prepend
prepend-some [] ss b = refl
prepend-some (r ∷ rs) ss b = ap (put r) (prepend-some rs ss b)

module _ (records : ℕ) (get_nolock : ℤ → Option FuncLog) where
  abbrev all_frames : ℕ → Cursor → Option (List (FuncLog × ℤ) × Bool)
  all_frames fuel c = read_all (read_frame records get_nolock) fuel c

  abbrev at : ℕ → ℕ → FuncLog → Cursor
  at i o l = record { id = pos i; offset = pos o; func_log = l }

  next_frame :
      (i o : ℕ) (l : FuncLog)
      → o + 1 < length l.frames
      → length l.frames < 2 ^ 63
      → read_frame records get_nolock (at i o l) ≡ (at i (o + 1) l, gives l (pos (o + 1)))
  unfolding read_frame
  next_frame i o l inside small = rw (incr_int64-pos o (omega arith)) (ground arith)

  next_call :
      (c : Cursor)
      → IsDone c
      → read_frame records get_nolock c
        ≡ load records get_nolock (record c { id = incr_int64 c.id; offset = pos 0 }) (pos 0)
  unfolding read_frame
  next_call c (inl e) = rw e (ground arith)
  next_call c (inr (o, e, small, out)) = rw (e, incr_int64-pos o small) (ground arith)

  step :
      (fuel i o : ℕ) (l : FuncLog)
      → o + 1 < length l.frames
      → length l.frames < 2 ^ 63
      → all_frames (suc fuel) (at i o l) ≡ put (l, pos (o + 1)) (all_frames fuel (at i (o + 1) l))
  unfolding read_all
  step fuel i o l inside small = rw (next_frame i o l inside small) refl

  -- The `k` further rows of the FuncLog.
  rest_of_call :
      (k i o last fuel : ℕ) (l : FuncLog)
      → last ≡ o + k
      → (k ≡ 0) ⊎ (last < length l.frames)
      → length l.frames < 2 ^ 63
      → all_frames (k + fuel) (at i o l)
        ≡ prepend (frames_from l k (o + 1)) (all_frames fuel (at i last l))
  unfolding prepend
  rest_of_call zero i o last fuel l e h small =
      let none_left : 0 + fuel ≡ fuel = omega arith in
      let here : last ≡ o = omega arith in rw (none_left, here) refl
  rest_of_call (suc k) i o last fuel l e (inl none_left) small = absurd (omega arith)
  rest_of_call (suc k) i o last fuel l e (inr inside) small =
      let one : suc k + fuel ≡ suc (k + fuel) = omega arith in
      rw one (
        step (k + fuel) i o l (omega arith) small
        ∙ ap (put (l, pos (o + 1)))
            (rest_of_call k i (o + 1) last fuel l (omega arith) (inr inside) small))

  -- A call with `k` frames after its first row.
  one_call :
      (k n i : ℕ) (c : Cursor) (l : FuncLog) {rows : List (FuncLog × ℤ)}
      → IsDone c
      → incr_int64 c.id ≡ pos i
      → i < records
      → get_nolock (pos i) ≡ some l
      → max 1 (length l.frames) ≡ suc k
      → length l.frames < 2 ^ 63
      → all_frames n (at i k l) ≡ some (rows, true)
      → all_frames (suc (k + n)) c ≡ some (frames_from l (suc k) 0 ++ rows, true)
  unfolding read_all
  one_call k n i c l {rows} done e inside stored frames size next =
      let within : leb_ℤ (pos records) (pos i) ≡ false = ground arith in
      let more : (k ≡ 0) ⊎ (k < length l.frames) = omega arith in
      rw (next_call c done, e, within, stored)
        (ap (put (l, pos 0)) (
          rest_of_call k i 0 k n l (omega arith) more size
          ∙ ap (prepend (frames_from l k 1)) next
          ∙ prepend-some (frames_from l k 1) rows true))

  -- From a cursor that is done with its FuncLog, the rows of the calls `ls` from the i-th on.
  calls_from :
      (ls : List FuncLog) (i : ℕ) (c : Cursor)
      → IsDone c
      → incr_int64 c.id ≡ pos i
      → Stores records get_nolock i ls
      → All (λ l. length l.frames < 2 ^ 63) ls
      → all_frames (suc (frame_count ls)) c ≡ some (frame_rows ls, true)
  unfolding read_all
  calls_from [] i c done e (count, small, read) sizes =
      let over : leb_ℤ (pos records) (pos i) ≡ true = ground arith in
      rw (next_call c done, e, over) refl
  calls_from (l ∷ ls) i c done e (count, small, read) (size, sizes) =
      let k : ℕ = max 1 (length l.frames) - 1 in
      let frames : max 1 (length l.frames) ≡ suc k = omega arith in
      let fuel : max 1 (length l.frames) + frame_count ls ≡ k + suc (frame_count ls) =
        omega arith in
      let stored : get_nolock (pos i) ≡ some l =
        subst (λ n. get_nolock (pos n) ≡ some l) (omega arith) (read 0) in
      let later : (j : ℕ) → get_nolock (pos (i + 1 + j)) ≡ get_elem? ls j =
        λ j. subst (λ n. get_nolock (pos n) ≡ get_elem? ls j) (omega arith) (read (suc j)) in
      let next : all_frames (suc (frame_count ls)) (at i k l) ≡ some (frame_rows ls, true) =
        calls_from ls (i + 1) (at i k l) (inr (k, refl, omega arith, omega arith))
          (incr_int64-pos i (omega arith)) (omega arith, small, later) sizes in
      ap (λ n. all_frames (suc n) c) fuel
      ∙ one_call k (suc (frame_count ls)) i c l done e (omega arith) stored frames size next
      ∙ ap (λ n. some (frames_from l n 0 ++ frame_rows ls, true)) (sym frames)

  -- The rows of a search of calls, from the i-th on.
  rows_from :
      (ls : List FuncLog) (i : ℕ) (c : Cursor)
      → incr_int64 c.id ≡ pos i
      → Stores records get_nolock i ls
      → read_all (read_call records get_nolock) (suc (length ls)) c
        ≡ some (map (λ l. (l, pos 0)) ls, true)
  unfolding read_all read_call
  rows_from [] i c e (count, small, read) =
      let over : leb_ℤ (pos records) (pos i) ≡ true = ground arith in rw (e, over) refl
  rows_from (l ∷ ls) i c e (count, small, read) =
      let within : leb_ℤ (pos records) (pos i) ≡ false = ground arith in
      let stored : get_nolock (pos i) ≡ some l =
        subst (λ n. get_nolock (pos n) ≡ some l) (omega arith) (read 0) in
      let later : (j : ℕ) → get_nolock (pos (i + 1 + j)) ≡ get_elem? ls j =
        λ j. subst (λ n. get_nolock (pos n) ≡ get_elem? ls j) (omega arith) (read (suc j)) in
      rw (e, within, stored)
        (ap (put (l, pos 0)) (
          rows_from ls (i + 1) (record { id = pos i; offset = c.offset; func_log = l })
            (incr_int64-pos i (omega arith)) (omega arith, small, later)))

-- Where the store holds the calls `logs` and reads each of them, the Reads of a search give, up to io.EOF:
-- of frames, each frame of each call in their order, but also a row of offset 0 for a call that has
-- no frame; of calls, each call in their order. One read more than there are rows is enough.
pub read_all-rows :
    (get_nolock : ℤ → Option FuncLog) (logs : List FuncLog) (pooled : FuncLog)
    → Stores (length logs) get_nolock 0 logs
    → All (λ l. length l.frames < 2 ^ 63) logs
    → (read_all (read_frame (length logs) get_nolock) (suc (frame_count logs)) (start pooled)
        ≡ some (frame_rows logs, true))
      × (read_all (read_call (length logs) get_nolock) (suc (length logs)) (start pooled)
          ≡ some (map (λ l. (l, pos 0)) logs, true))
unfolding incr_int64
read_all-rows get_nolock logs pooled stored sizes = (
  calls_from (length logs) get_nolock logs 0 (start pooled) (inl refl) refl stored sizes,
  rows_from (length logs) get_nolock logs 0 (start pooled) refl stored,
)
