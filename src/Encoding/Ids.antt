-- ===== src/Encoding/Ids.antt =====
-- tracer/encoding/types.go: identifiers and times are their 64-bit patterns, a tag is one byte.
use goapptrace.Base.{ℕ, ◌≡◌, List, length, subst}
use goapptrace.Base.Int.{ℤ, IsInt64, to_uint64, to_int64, to_uint64-lt, to_int64-to_uint64}
use goapptrace.Encoding.Slices.{
  Marshal, Unmarshal, map_unmarshal, Writes, Reads, map_unmarshal-Reads,
}
use goapptrace.Encoding.Buildin.{
  marshal_uint64, unmarshal_uint64, marshal_uint32, unmarshal_uint32, marshal_uint8,
  unmarshal_uint8,
}
use goapptrace.Encoding.Buildin.Format.{
  uint64_bytes, length-uint64_bytes, marshal_uint64-Writes, unmarshal_uint64-Reads,
}

unfoldable pub marshal_int64 : ℤ → Marshal
unfolding marshal_uint64
marshal_int64 a = marshal_uint64 (to_uint64 a)

unfoldable pub unmarshal_int64 : Unmarshal ℤ
unmarshal_int64 = map_unmarshal to_int64 unmarshal_uint64

unfoldable pub marshal_file_id : ℕ → Marshal
unfolding marshal_uint32
marshal_file_id id = marshal_uint32 id

unfoldable pub unmarshal_file_id : Unmarshal ℕ
unfolding unmarshal_uint32
unmarshal_file_id = unmarshal_uint32

unfoldable pub size_file_id : ℕ
size_file_id = 4

unfoldable pub marshal_gid : ℤ → Marshal
unfolding marshal_int64
marshal_gid gid = marshal_int64 gid

unfoldable pub unmarshal_gid : Unmarshal ℤ
unfolding unmarshal_int64
unmarshal_gid = unmarshal_int64

unfoldable pub marshal_tx_id : ℕ → Marshal
unfolding marshal_uint64
marshal_tx_id id = marshal_uint64 id

unfoldable pub unmarshal_tx_id : Unmarshal ℕ
unfolding unmarshal_uint64
unmarshal_tx_id = unmarshal_uint64

unfoldable pub marshal_func_log_id : ℤ → Marshal
unfolding marshal_int64
marshal_func_log_id id = marshal_int64 id

unfoldable pub unmarshal_func_log_id : Unmarshal ℤ
unfolding unmarshal_int64
unmarshal_func_log_id = unmarshal_int64

unfoldable pub marshal_raw_func_log_id : ℤ → Marshal
unfolding marshal_int64
marshal_raw_func_log_id id = marshal_int64 id

unfoldable pub unmarshal_raw_func_log_id : Unmarshal ℤ
unfolding unmarshal_int64
unmarshal_raw_func_log_id = unmarshal_int64

unfoldable pub marshal_time : ℤ → Marshal
unfolding marshal_int64
marshal_time time = marshal_int64 time

unfoldable pub unmarshal_time : Unmarshal ℤ
unfolding unmarshal_int64
unmarshal_time = unmarshal_int64

unfoldable pub marshal_tag_name : ℕ → Marshal
unfolding marshal_uint8
marshal_tag_name tag = marshal_uint8 tag

unfoldable pub unmarshal_tag_name : Unmarshal ℕ
unfolding unmarshal_uint8
unmarshal_tag_name = unmarshal_uint8

unfoldable pub int64_bytes : ℤ → List ℕ
int64_bytes a = uint64_bytes (to_uint64 a)

pub marshal_int64-Writes : (a : ℤ) → Writes (marshal_int64 a) (int64_bytes a)
unfolding marshal_int64 int64_bytes
marshal_int64-Writes a = marshal_uint64-Writes (to_uint64 a)

pub unmarshal_int64-Reads : (a : ℤ) → IsInt64 a → Reads unmarshal_int64 a (int64_bytes a)
unfolding unmarshal_int64 int64_bytes
unmarshal_int64-Reads a h =
    subst (λ b. Reads (map_unmarshal to_int64 unmarshal_uint64) b (uint64_bytes (to_uint64 a)))
      (to_int64-to_uint64 a h)
      (map_unmarshal-Reads to_int64 unmarshal_uint64 (to_uint64 a) (uint64_bytes (to_uint64 a))
        (unmarshal_uint64-Reads (to_uint64 a) (to_uint64-lt a)))

pub length-int64_bytes : (a : ℤ) → length (int64_bytes a) ≡ 8
unfolding int64_bytes
length-int64_bytes a = length-uint64_bytes (to_uint64 a)
