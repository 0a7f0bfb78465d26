-- ===== src/Storage/Log.antt =====
-- tracer/storage/log.go: the metadata of a Log with its version, and who is told of its updates. The
-- lock makes each operation one step.
pub mod Updates
use goapptrace.Base.{
  ℕ, Bool, true, false, not, ◌&&◌, List, [], ◌∷◌, map, Option, none, some, if◌then◌else◌,
}
use goapptrace.Base.Int.{ℤ, pos, incr_int64, ◌==ℤ◌}
use goapptrace.Types.LogId.{Hex, hex}
use goapptrace.Types.Metadata.{LogMetadata, LogInfo}

-- `callbacks` are the keys of the map, each of a callback that is registered.
pub record Log : Type 0 where
  pub id : List ℕ
  pub version : ℤ
  pub metadata : LogMetadata
  pub max_file_size : ℤ
  pub read_only : Bool
  pub callbacks : List ℤ

module _ (lib : Hex) where
  -- LogInfo and logInfoNolock
  unfoldable pub log_info : Log → LogInfo
  unfolding hex
  log_info l = record {
    id = hex lib l.id;
    version = l.version;
    metadata = l.metadata;
    max_file_size = l.max_file_size;
    read_only = l.read_only;
  }

  -- Notify: the calls of the callbacks.
  unfoldable pub notify : LogInfo → Log → List (ℤ × LogInfo)
  notify info l = map (λ k. (k, info)) l.callbacks

  abbrev pub with_metadata : LogMetadata → Log → Log
  with_metadata m l = record l { version = incr_int64 l.version; metadata = m }

  -- The log and whether it was updated, which ErrConflict denies, with the calls of the callbacks.
  unfoldable pub update_metadata : ℤ → LogMetadata → Log → Log × Bool × List (ℤ × LogInfo)
  unfolding log_info notify
  update_metadata current_ver m l =
      if not (l.version ==ℤ current_ver)
      then (l, false, [])
      else (with_metadata m l, true, notify (log_info (with_metadata m l)) (with_metadata m l))

  -- The PUT of the REST handler: the status and the answer.
  abbrev pub status_ok : ℕ
  status_ok = 200

  abbrev pub status_conflict : ℕ
  status_conflict = 409

  unfoldable pub put_log : LogInfo → Log → Log × ℕ × LogInfo
  unfolding update_metadata
  put_log info l =
      let (l', updated, calls) = update_metadata info.version info.metadata l in
      (l', if updated then status_ok else status_conflict, log_info l')

-- The part of the worker's update that reads: the metadata with the end of the last record of the index,
-- and the version, if that end is new.
abbrev pub with_timestamp : ℤ → LogMetadata → LogMetadata
with_timestamp t m = record m { timestamp = t }

unfoldable pub need_update : Option ℤ → Log → Option (ℤ × LogMetadata)
need_update none l = none
need_update (some max_end) l =
    if max_end ==ℤ l.metadata.timestamp
    then none
    else some (l.version, with_timestamp max_end l.metadata)

abbrev pub has_key : ℤ → List ℤ → Bool
has_key k [] = false
has_key k (j ∷ js) = if j ==ℤ k then true else has_key k js

-- register takes the first of the random numbers that is no key yet, if one of them is.
unfoldable pub register : List ℤ → Log → Option (Log × ℤ)
register [] l = none
register (k ∷ ks) l =
    let later = register ks l in
    if has_key k l.callbacks then later else some (record l { callbacks = k ∷ l.callbacks }, k)

abbrev pub without : ℤ → List ℤ → List ℤ
without k [] = []
without k (j ∷ js) = if j ==ℤ k then without k js else j ∷ without k js

unfoldable pub unregister : ℤ → Log → Log
unregister k l = record l { callbacks = without k l.callbacks }

-- Which of the files of a log exist.
pub record Files : Type 0 where
  pub meta : Bool
  pub func_log : Bool
  pub raw_func_log : Bool
  pub index : Bool
  pub symbol : Bool

pub data LogStatus : Type 0 where
  log_broken : LogStatus
  log_not_created : LogStatus
  log_created : LogStatus

unfoldable pub status : Files → LogStatus
status f =
    if f.meta && (f.func_log && (f.raw_func_log && (f.index && f.symbol)))
    then log_created
    else if not f.meta && (not f.func_log && (not f.raw_func_log && (not f.index && not f.symbol)))
    then log_not_created
    else log_broken
