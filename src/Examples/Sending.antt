-- ===== src/Examples/Sending.antt =====
-- tracer/protocol/client.go and tracer/logger: the merge sender with a limit of six bytes, and a
-- sender that works at the third attempt; a server that takes the third dial.
use goapptrace.Base.{
  ℕ, zero, suc, ◌<◌, ◌≡◌, ◌⊎◌, refl, arith, true, false, List, [], ◌∷◌, Option, none, some, ok,
}
use goapptrace.Base.Int.{pos}
use goapptrace.Protocol.{Json, ping, shutdown, detect_packet_type}
use goapptrace.Protocol.Bodies.{body_bytes}
use goapptrace.Protocol.Framing.{payload_bytes, length-packet_bytes}
use goapptrace.Protocol.Merge.Batches.{UnpacksTo}
use goapptrace.Client.Sender.{MergeSender, refresh_last}
use goapptrace.Client.Sender.Delivery.{stream, IsSmall}
use goapptrace.Client.Sender.Runs.{
  Op, small_op, refresh_op, init, packets, run, IsRun, run-UnpacksTo,
}
use goapptrace.Client.BufferOption.{BufferOption}
use goapptrace.Client.Serving.{Dialing, served, init as init_client, dial_addr, serve}
use goapptrace.Client.Serving.Dials.{IsLastDial, waits, serve-IsLastDial}
use goapptrace.Logger.RetrySender.{RetrySender, retry, retry_send}
use goapptrace.Logger.RetrySender.Attempts.{IsConfig, Succeeds, GivesUp, attempts, retry-outcome}
use goapptrace.Logger.RetrySender.Resends.{retry_send-agrees}

abbrev json : Json
json = record {
  IsText = λ s. Unit {0};
  encode = λ s. s;
  decode = λ s. some s;
  decode-encode = λ s h. refl;
}

ping-IsSmall : IsSmall json ping
unfolding payload_bytes body_bytes detect_packet_type
ping-IsSmall = ((tt, omega arith), omega (arith, length-packet_bytes json ping))

shutdown-IsSmall : IsSmall json shutdown
unfolding payload_bytes body_bytes detect_packet_type
shutdown-IsSmall = ((tt, omega arith), omega (arith, length-packet_bytes json shutdown))

-- The shutdown takes the packet that was sent first from the pool.
abbrev ops : List Op
ops =
    small_op ping none
    ∷ small_op ping none
    ∷ small_op ping none
    ∷ refresh_op
    ∷ small_op shutdown (some 0)
    ∷ []

ops-IsRun : IsRun json 6 ops
ops-IsRun = (ping-IsSmall, (ping-IsSmall, (ping-IsSmall, (tt, (shutdown-IsSmall, tt)))))

run-UnpacksTo_example :
    (mt : MergeSender) × (run json ops (init 6) ≡ ok mt)
    × UnpacksTo json (packets ops) (stream (refresh_last json true mt).0.sent)
run-UnpacksTo_example = run-UnpacksTo json 6 ops ops-IsRun

abbrev retrying : RetrySender
retrying = record { max_retries = pos 5; retry_interval = pos 0 }

abbrev retrying-IsConfig : IsConfig retrying
retrying-IsConfig = record { retries = 5; interval = 0; max_retries = refl; retry_interval = refl }

-- The state is the number of failures to come, the error is 1.
abbrev attempt : ℕ → ℕ × Option ℕ
attempt zero = (0, none)
attempt (suc n) = (n, some 1)

retry-outcome_example :
    Succeeds retrying retrying-IsConfig attempt (attempts 5) 2 (retry retrying attempt 2)
    ⊎ GivesUp retrying retrying-IsConfig attempt (attempts 5) 2 (retry retrying attempt 2)
retry-outcome_example = retry-outcome retrying retrying-IsConfig attempt 2

-- The state 0 is closed, the others are open; sending at 1 fails and spoils the connection.
abbrev closing : ℕ → ℕ × Option ℕ
closing n = (0, none)

abbrev opening : ℕ → ℕ × Option ℕ
opening n = (2, none)

abbrev sending : ℕ → ℕ × Option ℕ
sending zero = (0, some 9)
sending (suc zero) = (0, some 1)
sending (suc (suc n)) = (suc (suc n), none)

-- The same, but sending on a closed connection seems to work.
abbrev careless : ℕ → ℕ × Option ℕ
careless zero = (0, none)
careless (suc zero) = (0, some 1)
careless (suc (suc n)) = (suc (suc n), none)

agree_if_open : (n : ℕ) → 0 < n → sending n ≡ careless n
agree_if_open zero h = absurd (omega arith)
agree_if_open (suc zero) h = refl
agree_if_open (suc (suc n)) h = refl

retry_send-agrees_example :
    retry_send retrying closing opening sending 1 ≡ retry_send retrying closing opening careless 1
retry_send-agrees_example =
    retry_send-agrees retrying retrying-IsConfig closing opening (λ n. 0 < n) (λ n e. omega arith)
      sending careless agree_if_open 1 (omega arith)

abbrev third_dial : List ℕ → ℕ → Option ℕ
third_dial a zero = some 1
third_dial a (suc zero) = some 2
third_dial a (suc (suc i)) = none

abbrev server_addr : List ℕ
server_addr = b'h' ∷ b':' ∷ b'8' ∷ []

abbrev unset : BufferOption
unset = record {
  refresh_interval = pos 0;
  max_small_packet_size = pos 0;
  max_large_packet_size = pos 0;
  xtcp = record {
    send_list_len = pos 0;
    recv_buf_init_size = pos 0;
    send_buf_init_size = pos 0;
    recv_buf_max_size = pos 0;
    send_buf_max_size = pos 0;
  };
}

abbrev dialing : Dialing
dialing = record {
  addr = b't' ∷ b'c' ∷ b'p' ∷ b':' ∷ b'/' ∷ b'/' ∷ server_addr;
  ping_interval = pos 0;
  max_retries = pos 0;
  buffer_opt = unset;
  init_done = false;
}

serve-IsLastDial_example :
    (k : ℕ) × IsLastDial third_dial server_addr (init_client dialing).max_retries k
    × (serve third_dial dialing ≡ some (served (third_dial server_addr k) (waits k 0)))
unfolding init_client dial_addr
serve-IsLastDial_example = serve-IsLastDial third_dial dialing server_addr refl
