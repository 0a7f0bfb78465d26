-- ===== src/Client/Serving.antt =====
-- tracer/protocol/client.go: Client.Init and Client.Serve, with the loop that dials the server. The
-- retries are as many as MaxRetries, so the loop runs on fuel for one dial more.
pub mod Dials
use goapptrace.Base.{
  ℕ, zero, suc, ◌+◌, ◌*◌, ◌%◌, ◌^◌, Bool, true, false, ◌&&◌, List, [], ◌∷◌, Option, none, some, ltb,
  ◌==◌, if◌then◌else◌, drop, length,
}
use goapptrace.Base.Int.{ℤ, pos, negsuc, to_uint64, to_int64}
use goapptrace.Client.BufferOption.{BufferOption, set_default, or_if_zero}

-- The fields of Client that say where it dials, how often, and with
-- which buffers. `init_done` is initOnce; durations are
-- nanoseconds.
pub record Dialing : Type 0 where
  pub addr : List ℕ
  pub ping_interval : ℤ
  pub max_retries : ℤ
  pub buffer_opt : BufferOption
  pub init_done : Bool

abbrev pub default_max_retries : ℤ
default_max_retries = pos 10

abbrev pub min_wait_time : ℤ
min_wait_time = pos 10000000

abbrev pub default_ping_interval : ℤ
default_ping_interval = pos 3000000000

-- Init, on these fields.
unfoldable pub init : Dialing → Dialing
unfolding set_default
init c = if c.init_done then c else record {
  addr = c.addr;
  ping_interval = or_if_zero default_ping_interval c.ping_interval;
  max_retries = or_if_zero default_max_retries c.max_retries;
  buffer_opt = set_default c.buffer_opt;
  init_done = true;
}

-- strings.HasPrefix
abbrev pub has_prefix : List ℕ → List ℕ → Bool
has_prefix s [] = true
has_prefix [] (p ∷ ps) = false
has_prefix (x ∷ s) (p ∷ ps) = x == p && has_prefix s ps

abbrev pub unix_scheme : List ℕ
unix_scheme = b'u' ∷ b'n' ∷ b'i' ∷ b'x' ∷ b':' ∷ b'/' ∷ b'/' ∷ []

abbrev pub tcp_scheme : List ℕ
tcp_scheme = b't' ∷ b'c' ∷ b'p' ∷ b':' ∷ b'/' ∷ b'/' ∷ []

-- The address without its scheme; none is InvalidProtocolError.
unfoldable pub dial_addr : List ℕ → Option (List ℕ)
dial_addr s =
    if has_prefix s unix_scheme
    then none
    else if has_prefix s tcp_scheme
    then some (drop (length tcp_scheme) s)
    else none

-- retries < c.MaxRetries
abbrev pub may_retry : ℕ → ℤ → Bool
may_retry retries (pos n) = ltb retries n
may_retry retries (negsuc n) = false

-- waitTime *= 2 on an int64
abbrev pub double : ℤ → ℤ
double t = to_int64 (to_uint64 t * 2 % 2 ^ 64)

-- How often the loop may dial again.
abbrev pub retries_of : ℤ → ℕ
retries_of (pos n) = n
retries_of (negsuc n) = 0

-- What Serve returns, nil or an error, and the times that it has slept.
pub data Served (E : Type 0) : Type 0 where
  invalid_protocol : Served E
  served : Option E → List ℤ → Served E

abbrev slept_first : {E : Type 0} → ℤ → Served E → Served E
slept_first t invalid_protocol = invalid_protocol
slept_first t (served e ts) = served e (t ∷ ts)

-- `dial a i` is what the i-th DialAndServe of the address returns.
module _ {E : Type 0} (dial : List ℕ → ℕ → Option E) where
  abbrev after_sleep : ℤ → Option (Served E) → Option (Served E)
  after_sleep t none = none
  after_sleep t (some r) = some (slept_first t r)

  -- What follows the dial; `again` is the rest of the loop.
  abbrev dialed : Bool → ℤ → Option (Served E) → Option E → Option (Served E)
  dialed retry wait_time again none = some (served none [])
  dialed true wait_time again (some e) = after_sleep wait_time again
  dialed false wait_time again (some e) = some (served (some e) [])

  unfoldable pub serve_loop : (fuel : ℕ) → List ℕ → (max_retries : ℤ) → ℕ → ℤ → Option (Served E)
  serve_loop zero a m retries wait_time = none
  serve_loop (suc fuel) a m retries wait_time =
      dialed (may_retry retries m) wait_time (serve_loop fuel a m (retries + 1) (double wait_time))
        (dial a retries)

  abbrev serve_addr : ℤ → Option (List ℕ) → Option (Served E)
  serve_addr m none = some invalid_protocol
  serve_addr m (some a) = serve_loop (suc (retries_of m)) a m 0 min_wait_time

  -- Serve, without what it leaves in the fields opt, xtcpconn and mergeSender.
  unfoldable pub serve : Dialing → Option (Served E)
  unfolding init dial_addr serve_loop
  serve c = serve_addr (init c).max_retries (dial_addr (init c).addr)
