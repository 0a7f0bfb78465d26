-- ===== src/Types/Metadata.antt =====
-- tracer/types/log_metadata.go: what the server keeps about a log beside its records.
use Prim.Native.String.{String}
use goapptrace.Base.{ℕ, Bool, false, List, Option, none, some}
use goapptrace.Base.Int.{ℤ}
use goapptrace.Base.Maps.{int_eq, lookup}
use goapptrace.Types.{FuncLog}

pub record UiItemConfig : Type 0 where
  pub pinned : Bool
  pub masked : Bool
  pub comment : String

pub record UiConfig : Type 0 where
  pub func_logs : List (ℤ × UiItemConfig)
  pub funcs : List (String × UiItemConfig)
  pub goroutines : List (ℤ × UiItemConfig)

abbrev pub is_set : (UiItemConfig → Bool) → Option UiItemConfig → Bool
is_set flag none = false
is_set flag (some g) = flag g

-- The list of the names of its functions stays empty, so only its goroutine counts.
unfoldable pub is_masked : UiConfig → FuncLog → Bool
unfolding lookup
is_masked c fc = is_set (λ g. g.masked) (lookup fc.gid c.goroutines)

unfoldable pub is_pinned : UiConfig → FuncLog → Bool
unfolding lookup
is_pinned c fc = is_set (λ g. g.pinned) (lookup fc.gid c.goroutines)

pub record LogMetadata : Type 0 where
  pub timestamp : ℤ
  pub pid : ℤ
  pub host : String
  pub app_name : String
  pub trace_target : List String
  pub ui : UiConfig

pub record LogInfo : Type 0 where
  pub id : List ℕ
  pub version : ℤ
  pub metadata : LogMetadata
  pub max_file_size : ℤ
  pub read_only : Bool
