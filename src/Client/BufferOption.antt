-- ===== src/Client/BufferOption.antt =====
-- tracer/protocol/buffer.go: the sizes of the buffers that a Client configures, and their defaults.
use goapptrace.Base.{zero, suc, ◌*◌, ◌^◌}
use goapptrace.Base.Int.{ℤ, pos, negsuc}

pub record XtcpBufferOption : Type 0 where
  pub send_list_len : ℤ
  pub recv_buf_init_size : ℤ
  pub send_buf_init_size : ℤ
  pub recv_buf_max_size : ℤ
  pub send_buf_max_size : ℤ

-- RefreshInterval is in nanoseconds.
pub record BufferOption : Type 0 where
  pub refresh_interval : ℤ
  pub max_small_packet_size : ℤ
  pub max_large_packet_size : ℤ
  pub xtcp : XtcpBufferOption

abbrev pub default_refresh_interval : ℤ
default_refresh_interval = pos 100000000

-- 1 MiB, for a small packet and for the first size of a buffer.
abbrev pub default_small_size : ℤ
default_small_size = pos (2 ^ 20)

-- 100 MiB, for a large packet and for the last size of a buffer.
abbrev pub default_large_size : ℤ
default_large_size = pos (100 * 2 ^ 20)

abbrev pub default_send_list_len : ℤ
default_send_list_len = pos 30

-- A field, or its default where the field is 0.
abbrev pub or_if_zero : ℤ → ℤ → ℤ
or_if_zero d (pos zero) = d
or_if_zero d (pos (suc n)) = pos (suc n)
or_if_zero d (negsuc n) = negsuc n

unfoldable pub set_xtcp_default : XtcpBufferOption → XtcpBufferOption
set_xtcp_default opt = record {
  send_list_len = or_if_zero default_send_list_len opt.send_list_len;
  recv_buf_init_size = or_if_zero default_small_size opt.recv_buf_init_size;
  send_buf_init_size = or_if_zero default_small_size opt.send_buf_init_size;
  recv_buf_max_size = or_if_zero default_large_size opt.recv_buf_max_size;
  send_buf_max_size = or_if_zero default_large_size opt.send_buf_max_size;
}

unfoldable pub set_default : BufferOption → BufferOption
unfolding set_xtcp_default
set_default opt = record {
  refresh_interval = or_if_zero default_refresh_interval opt.refresh_interval;
  max_small_packet_size = or_if_zero default_small_size opt.max_small_packet_size;
  max_large_packet_size = or_if_zero default_large_size opt.max_large_packet_size;
  xtcp = set_xtcp_default opt.xtcp;
}
