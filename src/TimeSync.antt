-- ===== src/TimeSync.antt =====
-- The synchronisation of the clock, firmware/src/time_sync.c. The time port is an argument: whether
-- `request_sync` starts a synchronisation, and what `poll_sync` answers.
pub mod Valid
use xiaomi_feeder_iv.Common.{
  leb, ◌==◌, if◌then◌else◌, u32, sub32, ℕ, ◌+◌, Bool, true, false, not, ◌&&◌, ◌||◌,
}

abbrev pub time_sync_resync_ms : ℕ
time_sync_resync_ms = 21_600_000

abbrev pub time_sync_retry_ms : ℕ
time_sync_retry_ms = 60_000

pub data SyncState : Type 0 where
  sync_unknown syncing synced : SyncState

pub data RequestResult : Type 0 where
  request_ok request_busy request_no_network : RequestResult

pub record TimeSync : Type 0 where
  pub state : SyncState
  pub wifi_ready : Bool
  pub last_success_ms : ℕ
  pub next_retry_ms : ℕ

-- `poll_sync`: no port, an error or not done yet, or done with success or failure.
pub data SyncPoll : Type 0 where
  no_port not_done : SyncPoll
  done : Bool → SyncPoll

unfoldable pub time_sync_on_success : ℕ → TimeSync → TimeSync
time_sync_on_success now_ms s = record s {
  state = synced;
  last_success_ms = now_ms;
  next_retry_ms = 0;
}

unfoldable pub time_sync_on_finish : Bool → ℕ → TimeSync → TimeSync
time_sync_on_finish ok now_ms s =
    if ok
    then time_sync_on_success now_ms s
    else if not (s.last_success_ms == 0)
    then record s { state = synced }
    else record s { state = sync_unknown; next_retry_ms = u32 (now_ms + time_sync_retry_ms) }

-- `starts` is false with no port, or when `request_sync` does not answer PORT_OK.
unfoldable pub time_sync_start : Bool → TimeSync → Bool × TimeSync
time_sync_start starts s = if starts then (true, record s { state = syncing }) else (false, s)

abbrev pub time_sync_init : TimeSync
time_sync_init = record {
  state = sync_unknown;
  wifi_ready = false;
  last_success_ms = 0;
  next_retry_ms = 0;
}

unfoldable pub time_sync_on_wifi_ready : Bool → TimeSync → TimeSync
time_sync_on_wifi_ready starts s =
    (time_sync_start starts (record s { wifi_ready = true; next_retry_ms = 0 })).1

unfoldable pub on_poll_sync : SyncPoll → ℕ → TimeSync → TimeSync
on_poll_sync no_port now_ms s = s
on_poll_sync not_done now_ms s = s
on_poll_sync (done ok) now_ms s = time_sync_on_finish ok now_ms s

unfoldable pub poll_synced : Bool → ℕ → TimeSync → TimeSync
poll_synced starts now_ms s =
    if not (s.last_success_ms == 0) && leb time_sync_resync_ms (sub32 now_ms s.last_success_ms)
    then (time_sync_start starts s).1
    else s

unfoldable pub poll_unknown : Bool → ℕ → TimeSync → TimeSync
poll_unknown starts now_ms s =
    if not (s.next_retry_ms == 0) && leb s.next_retry_ms now_ms
    then (time_sync_start starts (record s { next_retry_ms = 0 })).1
    else s

unfoldable pub poll_state : SyncState → Bool → SyncPoll → ℕ → TimeSync → TimeSync
poll_state syncing starts answer now_ms s = on_poll_sync answer now_ms s
poll_state synced starts answer now_ms s = poll_synced starts now_ms s
poll_state sync_unknown starts answer now_ms s = poll_unknown starts now_ms s

abbrev pub has_port : SyncPoll → Bool
has_port no_port = false
has_port not_done = true
has_port (done ok) = true

unfoldable pub time_sync_poll : Bool → SyncPoll → ℕ → TimeSync → TimeSync
time_sync_poll starts answer now_ms s =
    if not s.wifi_ready || not (has_port answer)
    then s
    else poll_state s.state starts answer now_ms s

abbrev pub is_syncing : SyncState → Bool
is_syncing syncing = true
is_syncing synced = false
is_syncing sync_unknown = false

-- The end of a request: the retry is dropped when a synchronisation has started.
unfoldable pub requested : Bool × TimeSync → RequestResult × TimeSync
requested (started, s) =
    if not started then (request_busy, s) else (request_ok, record s { next_retry_ms = 0 })

unfoldable pub time_sync_request_now : Bool → TimeSync → RequestResult × TimeSync
time_sync_request_now starts s =
    if not s.wifi_ready
    then (request_no_network, s)
    else if is_syncing s.state
    then (request_busy, s)
    else requested (time_sync_start starts s)

unfoldable pub time_sync_is_valid : TimeSync → Bool
time_sync_is_valid s = elim s.state [ sync_unknown ↦ false | syncing ↦ false | synced ↦ true ]
