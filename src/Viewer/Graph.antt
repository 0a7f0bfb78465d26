-- ===== src/Viewer/Graph.antt =====
-- logviewer/graphview.go: GraphVM.buildLines, the lines of the graph of a log's calls. What sort.Slice
-- leaves in the records and in the list of the goroutine IDs is given; the order in which a map is
-- ranged over is that of its list. The positions are too small for an int to wrap.
pub mod Positions
pub mod Lines
pub mod Spans
use goapptrace.Base.{
  ℕ, zero, suc, ◌+◌, ◌-◌, ◌*◌, Bool, true, false, not, ◌&&◌, ◌||◌, List, [], ◌∷◌, ◌++◌, Option,
  none, some, Outcome, ok, panic, ◌>>=◌, leb, if◌then◌else◌,
}
use goapptrace.Base.Int.{ℤ, pos, negsuc, pos_part, neg_part, sub_ℕ, ltb_ℤ, leb_ℤ, ◌==ℤ◌}
use goapptrace.Types.{FuncLog, Goroutine, is_ended}
use goapptrace.Types.Metadata.{UiConfig, is_pinned}

-- EndedFuncLogs
abbrev pub is_ended_at : ℤ → FuncLog → Bool
is_ended_at t fc = is_ended fc && ltb_ℤ fc.end_time t

unfoldable pub ended_func_logs : List FuncLog → ℤ → ℕ
ended_func_logs [] t = 0
ended_func_logs (fc ∷ fcs) t =
    let n = ended_func_logs fcs t in if is_ended_at t fc then n + 1 else n

-- RunningFuncLogs
abbrev pub is_running_at : ℤ → FuncLog → Bool
is_running_at t fc = ltb_ℤ fc.start_time t && (not (is_ended fc) || leb_ℤ t fc.end_time)

unfoldable pub running_func_logs : List FuncLog → ℤ → ℕ
running_func_logs [] t = 0
running_func_logs (fc ∷ fcs) t =
    let n = running_func_logs fcs t in if is_running_at t fc then n + 1 else n

unfoldable pub calc_x_pos : List FuncLog → ℤ → ℕ
unfolding ended_func_logs running_func_logs
calc_x_pos records t = ended_func_logs records t * 2 + running_func_logs records t

abbrev pub later : ℤ → ℤ → ℤ
later m t = if ltb_ℤ m t then t else m

unfoldable pub max_time_from : ℤ → List FuncLog → ℤ
max_time_from m [] = m
max_time_from m (fc ∷ fcs) = max_time_from (later (later m fc.start_time) fc.end_time) fcs

unfoldable pub max_time : List FuncLog → ℤ
unfolding max_time_from
max_time records = max_time_from (pos 0) records

-- The time at which the line of a call ends.
abbrev pub stop_time : List FuncLog → FuncLog → ℤ
stop_time records fc = if is_ended fc then fc.end_time else max_time records

-- fcX and fcLen of a record
unfoldable pub position : List FuncLog → FuncLog → Outcome (ℕ × ℕ)
unfolding calc_x_pos max_time
position records fc =
    let left = calc_x_pos records fc.start_time in
    let right = calc_x_pos records (stop_time records fc) in
    if leb right left then panic else ok (left, right - left + 1)

unfoldable pub positions : List FuncLog → List FuncLog → Outcome (List (FuncLog × ℕ × ℕ))
unfolding position
positions records [] = ok []
positions records (fc ∷ fcs) =
    position records fc >>= λ p. positions records fcs >>= λ ps. ok ((fc, p.0, p.1) ∷ ps)

-- first, last and exists of a goroutine
pub record Span : Type 0 where
  pub first : ℤ
  pub last : ℤ
  pub exists : Bool

abbrev pub max_int : ℤ
max_int = pos 9223372036854775807

abbrev pub min_int : ℤ
min_int = negsuc 9223372036854775807

abbrev pub first_of : Goroutine → FuncLog → ℕ → ℤ → ℤ
first_of g fc x first =
    if ltb_ℤ (pos x) first
    then if ltb_ℤ g.start_time fc.start_time then sub_ℕ x 1 else pos x
    else first

abbrev pub last_of : Goroutine → FuncLog → ℕ → ℤ → ℤ
last_of g fc end last =
    if ltb_ℤ last (pos end)
    then if ltb_ℤ fc.end_time g.end_time then pos (end + 1) else pos end
    else last

abbrev pub widened : ℤ → Goroutine → FuncLog × ℕ × ℕ → Span → Span
widened gid g (fc, x, len) s =
    if fc.gid ==ℤ gid
    then record {
      first = first_of g fc x s.first;
      last = last_of g fc (x + len) s.last;
      exists = true;
    }
    else s

unfoldable pub span_from : ℤ → Goroutine → List (FuncLog × ℕ × ℕ) → Span → Span
span_from gid g [] s = s
span_from gid g (p ∷ ps) s = span_from gid g ps (widened gid g p s)

abbrev pub no_span : Span
no_span = record { first = max_int; last = min_int; exists = false }

-- firstXSet[gid] and lastXSet[gid]
unfoldable pub span : List (FuncLog × ℕ × ℕ) → ℤ → Goroutine → Outcome (ℤ × ℤ)
unfolding span_from
span ps gid g =
    let s = span_from gid g ps no_span in if s.exists then ok (s.first, s.last) else panic

pub data Style : Type 0 where
  gap : Style
  call_line : (ended selected marked : Bool) → Style

pub record Line : Type 0 where
  pub x : ℤ
  pub y : ℕ
  pub length : ℕ
  pub style : Style

-- gidY, which is 0 for a goroutine that it has not.
unfoldable pub gid_y : List ℤ → ℕ → ℤ → ℕ
gid_y [] idx gid = 0
gid_y (j ∷ js) idx gid = let rest = gid_y js (idx + 1) gid in if j ==ℤ gid then idx else rest

-- last - first
abbrev pub span_length : ℤ × ℤ → ℕ
span_length (first, last) = pos_part last + neg_part first - (pos_part first + neg_part last)

unfoldable pub gap_line : List ℤ → ℤ → ℤ × ℤ → Outcome Line
unfolding gid_y
gap_line gids gid s =
    if ltb_ℤ s.1 s.0
    then panic
    else ok (record { x = s.0; y = gid_y gids 0 gid; length = span_length s; style = gap })

unfoldable pub gap_lines :
    List ℤ → List (FuncLog × ℕ × ℕ) → List (ℤ × Goroutine) → Outcome (List Line)
unfolding span gap_line
gap_lines gids ps [] = ok []
gap_lines gids ps ((gid, g) ∷ gmap) =
    span ps gid g >>= λ s. gap_line gids gid s >>= λ l. gap_lines gids ps gmap >>= λ ls. ok (l ∷ ls)

-- The line of a call; a selected one is not marked.
unfoldable pub func_line : List ℤ → ℤ → UiConfig → FuncLog × ℕ × ℕ → Line
unfolding gid_y is_pinned
func_line gids selected ui (fc, x, len) = record {
  x = pos x;
  y = gid_y gids 0 fc.gid;
  length = len;
  style =
      call_line (is_ended fc) (fc.id ==ℤ selected) (not (fc.id ==ℤ selected) && is_pinned ui fc);
}

-- From the last record to the first.
unfoldable pub func_lines : List ℤ → ℤ → UiConfig → List (FuncLog × ℕ × ℕ) → List Line
unfolding func_line
func_lines gids selected ui [] = []
func_lines gids selected ui (p ∷ ps) =
    func_lines gids selected ui ps ++ (func_line gids selected ui p ∷ [])

unfoldable pub build_lines :
    (records : List FuncLog) (gmap : List (ℤ × Goroutine)) (gids : List ℤ) (selected : ℤ)
    → UiConfig
    → Outcome (List Line)
unfolding positions gap_lines func_lines
build_lines records gmap gids selected ui = positions records records >>= λ ps.
    gap_lines gids ps gmap >>= λ gaps. ok (gaps ++ func_lines gids selected ui ps)
