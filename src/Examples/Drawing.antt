-- ===== src/Examples/Drawing.antt =====
-- logviewer/graphview.go: the graph of a call and a call inside it, and one of a call that has just
-- started.
use goapptrace.Base.{ℕ, ◌+◌, arith, ◌≡◌, refl, ◌↔◌, true, false, List, [], ◌∷◌, ok, panic, All}
use goapptrace.Base.Int.{ℤ, pos, negsuc}
use goapptrace.Base.Maps.{lookup}
use goapptrace.Types.{FuncLog, Goroutine, is_ended}
use goapptrace.Types.Metadata.{UiConfig}
use goapptrace.Viewer.Graph.{Line, gap, call_line, span, build_lines}
use goapptrace.Viewer.Graph.Positions.{HasLength}
use goapptrace.Viewer.Graph.Lines.{HasCalls, build_lines_iff}
use goapptrace.Viewer.Graph.Spans.{IsInside, Own, start_column, end_column, span-IsInside}

abbrev call : ℤ → ℤ → ℤ → FuncLog
call id start end = record {
  id = id;
  start_time = start;
  end_time = end;
  parent_id = negsuc 0;
  frames = [];
  gid = pos 1;
}

-- Sorted by the time of the start, from the last to the first.
abbrev records : List FuncLog
records = call (pos 2) (pos 2) (pos 3) ∷ call (pos 1) (pos 1) (pos 4) ∷ []

abbrev goroutine : Goroutine
goroutine = record { gid = pos 1; start_time = pos 1; end_time = pos 4 }

abbrev gmap : List (ℤ × Goroutine)
gmap = (pos 1, goroutine) ∷ []

abbrev ui : UiConfig
ui = record { func_logs = []; funcs = []; goroutines = [] }

abbrev stopped : ℤ → ℕ → Line
stopped x len = record { x = x; y = 0; length = len; style = call_line true false false }

-- The test "multi-calls" of graphview_test.go.
multi_calls :
    build_lines records gmap (pos 1 ∷ []) (pos 0) ui
    ≡ ok (
        record { x = pos 0; y = 0; length = 4; style = gap }
        ∷ stopped (pos 0) 4
        ∷ stopped (pos 1) 2
        ∷ [])
unfolding build_lines lookup is_ended
multi_calls = refl

-- A call that has just started is the latest event.
just_started :
    build_lines (call (pos 1) (pos 5) (negsuc 0) ∷ []) gmap (pos 1 ∷ []) (pos 0) ui ≡ panic
unfolding build_lines lookup is_ended
just_started = refl

build_lines_iff_example :
    ((ls : List Line) × (build_lines records gmap (pos 1 ∷ []) (pos 0) ui ≡ ok ls))
    ↔ (All (HasLength records) records × HasCalls records gmap)
build_lines_iff_example = build_lines_iff records gmap (pos 1 ∷ []) (pos 0) ui

abbrev placed : List (FuncLog × ℕ × ℕ)
placed = (call (pos 2) (pos 2) (pos 3), 1, 2) ∷ (call (pos 1) (pos 1) (pos 4), 0, 4) ∷ []

span-IsInside_example :
    All (IsInside (pos 1) (pos 0) (pos 4)) placed
    × Own (pos 1) (λ fc x len. pos 0 ≡ start_column goroutine fc x) placed
    × Own (pos 1) (λ fc x len. pos 4 ≡ end_column goroutine fc (x + len)) placed
unfolding span
span-IsInside_example = span-IsInside placed (pos 1) goroutine (pos 0) (pos 4) (omega arith) refl
