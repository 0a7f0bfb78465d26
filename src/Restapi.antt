-- ===== src/Restapi.antt =====
-- tracer/restapi/handlers.go: csvResponse.Run, the loop that answers a search in SQL.
pub mod Window
pub mod Where
pub mod Reads
pub mod Narrowing
pub mod ParamNames
pub mod Params
pub mod Sorting
use goapptrace.Base.{
  ℕ, ◌+◌, Bool, true, false, not, ◌&&◌, List, [], ◌∷◌, Outcome, ok, panic, ◌>>=◌, ◌%◌, ◌^◌,
  if◌then◌else◌,
}
use goapptrace.Base.Int.{ℤ, pos, ltb_ℤ, leb_ℤ, to_int64, to_uint64, incr_int64}

-- The two results of Run: http.Error or a log line, or the lines that are sent.
pub data Answer (A : Type 0) : Type 0 where
  bad_request : Answer A
  lines : List A → Answer A

-- A sum of two int64, which wraps.
abbrev pub add_int64 : ℤ → ℤ → ℤ
add_int64 a b = to_int64 ((to_uint64 a + to_uint64 b) % 2 ^ 64)

-- Send answers whether its error is nil, or panics; `w` is what Where keeps between the rows.
module _ {A W : Type 0} (where_clause : A → W → Outcome (Bool × W)) (sends : A → W → Outcome Bool)
    (offset rows : ℤ) where
  -- The call of Send and, without an error, the rest of the loop.
  abbrev pub sent_then : Outcome Bool → A → Outcome (List A) → Outcome (List A)
  sent_then panic a rest = panic
  sent_then (ok false) a rest = ok []
  sent_then (ok true) a rest = rest >>= λ sent. ok (a ∷ sent)

  -- The body of the loop after Where, where `lineno` has been counted.
  abbrev pub counted_line : ℤ → Outcome Bool → A → Outcome (List A) → Outcome (List A)
  counted_line lineno sending a rest =
      if ltb_ℤ lineno offset
      then rest
      else if ltb_ℤ (pos 0) rows && leb_ℤ (add_int64 offset rows) lineno
      then ok []
      else sent_then sending a rest

  -- The rows that Read gives, up to its error or io.EOF.
  unfoldable pub run_lines : ℤ → List A → W → Outcome (List A)
  run_lines lineno [] w = ok []
  run_lines lineno (a ∷ xs) w = where_clause a w >>= λ r.
      let skipped = run_lines lineno xs r.1 in
      let counted = run_lines (incr_int64 lineno) xs r.1 in
      if not r.0 then skipped else counted_line (incr_int64 lineno) (sends a r.1) a counted

  -- Run; whether SetUpRow and WriteHeader succeed is given.
  unfoldable pub run : Bool → Bool → List A → W → Outcome (Answer A)
  unfolding run_lines
  run sets_up writes_header xs w =
      if not sets_up
      then ok bad_request
      else if not writes_header
      then ok (lines [])
      else (run_lines (pos 0) xs w >>= λ sent. ok (lines sent))
