-- ===== src/TimeSync/Valid.antt =====
-- What holds of the clock once it has been set.
use xiaomi_feeder_iv.Common.{
  if_both, ℕ, ◌≡◌, refl, ◌≢◌, ◌⊎◌, inr, Bool, true, false, List, [], ◌∷◌, leb, ◌==◌, if◌then◌else◌,
  All, u32, sub32, ◌+◌, inl, not, ◌&&◌, ◌||◌, arith, if_false, ap, ◌∙◌,
}
use xiaomi_feeder_iv.TimeSync.{
  syncing, TimeSync, SyncPoll, time_sync_on_success, time_sync_on_finish, time_sync_start,
  time_sync_on_wifi_ready, time_sync_poll, time_sync_request_now, time_sync_is_valid,
  time_sync_resync_ms, time_sync_retry_ms, SyncState, sync_unknown, synced, no_port, not_done, done,
  on_poll_sync, poll_synced, poll_state, has_port, requested, RequestResult, request_ok,
  request_busy, request_no_network, is_syncing,
}

-- The operations of the module, with the answers of the time port.
pub data SyncEvent : Type 0 where
  wifi_up : Bool → SyncEvent
  poll : Bool → SyncPoll → ℕ → SyncEvent
  ask : Bool → SyncEvent

unfoldable pub happens : SyncEvent → TimeSync → TimeSync
happens (wifi_up starts) s = time_sync_on_wifi_ready starts s
happens (poll starts answer now_ms) s = time_sync_poll starts answer now_ms s
happens (ask starts) s = (time_sync_request_now starts s).1

unfoldable pub all_happen : List SyncEvent → TimeSync → TimeSync
all_happen [] s = s
all_happen (e ∷ es) s = all_happen es (happens e s)

-- No poll comes at tick 0, which the code reads as no success yet.
unfoldable pub IsTicking : SyncEvent → Type 0
IsTicking (poll starts answer now_ms) = now_ms ≢ 0
IsTicking (wifi_up starts) = Unit
IsTicking (ask starts) = Unit

-- The clock has been set: it is valid, or being synchronised again and not valid meanwhile.
pub record WasSet (s : TimeSync) : Type 0 where
  pub once : s.last_success_ms ≢ 0
  pub state_is :
      (time_sync_is_valid s ≡ true) ⊎ ((s.state ≡ syncing) × (time_sync_is_valid s ≡ false))

start-WasSet : (starts : Bool) (s : TimeSync) → WasSet s → WasSet (time_sync_start starts s).1
unfolding time_sync_start time_sync_is_valid
start-WasSet starts s v =
    if_both (λ (r : Bool × TimeSync). WasSet r.1) starts (true, record s { state = syncing })
      (false, s) (λ _. record { once = v.once; state_is = inr (refl, refl) }) (λ _. v)

finish-WasSet :
    (ok : Bool) (now_ms : ℕ) (s : TimeSync)
    → now_ms ≢ 0
    → WasSet s
    → WasSet (time_sync_on_finish ok now_ms s)
unfolding time_sync_on_finish time_sync_on_success time_sync_is_valid
finish-WasSet ok now_ms s n v =
    let unset = record s {
      state = sync_unknown;
      next_retry_ms = u32 (now_ms + time_sync_retry_ms);
    } in
    let old = record s { state = synced } in
    let failed = if not (s.last_success_ms == 0) then old else unset in
    if_both WasSet ok (time_sync_on_success now_ms s) failed
      (λ _. record { once = n; state_is = inl refl })
      (λ _.
        if_both WasSet (not (s.last_success_ms == 0)) old unset
          (λ _. record { once = v.once; state_is = inl refl })
          (λ f. absurd (v.once (ground arith))))

poll_synced-WasSet :
    (starts : Bool) (now_ms : ℕ) (s : TimeSync) → WasSet s → WasSet (poll_synced starts now_ms s)
unfolding poll_synced
poll_synced-WasSet starts now_ms s v =
    if_both WasSet
      (not (s.last_success_ms == 0) && leb time_sync_resync_ms (sub32 now_ms s.last_success_ms))
      (time_sync_start starts s).1 s (λ _. start-WasSet starts s v) (λ _. v)

not_unknown : (s : TimeSync) → WasSet s → s.state ≡ sync_unknown → ⊥
unfolding time_sync_is_valid
not_unknown s v e = elim (v.state_is) [ inl t ↦ cc (rw e at t) | inr t ↦ cc (t.0, e) ]

state-WasSet :
    (p : SyncState) (starts : Bool) (answer : SyncPoll) (now_ms : ℕ) (s : TimeSync)
    → s.state ≡ p
    → now_ms ≢ 0
    → WasSet s
    → WasSet (poll_state p starts answer now_ms s)
unfolding poll_state on_poll_sync
state-WasSet syncing starts no_port now_ms s e n v = v
state-WasSet syncing starts not_done now_ms s e n v = v
state-WasSet syncing starts (done ok) now_ms s e n v = finish-WasSet ok now_ms s n v
state-WasSet synced starts answer now_ms s e n v = poll_synced-WasSet starts now_ms s v
state-WasSet sync_unknown starts answer now_ms s e n v = absurd (not_unknown s v e)

requested-WasSet : (r : Bool × TimeSync) → WasSet r.1 → WasSet (requested r).1
unfolding requested time_sync_is_valid
requested-WasSet (started, s) v =
    if_both (λ (q : RequestResult × TimeSync). WasSet q.1) (not started) (request_busy, s)
      (request_ok, record s { next_retry_ms = 0 }) (λ _. v)
      (λ _. record { once = v.once; state_is = v.state_is })

ask-WasSet : (starts : Bool) (s : TimeSync) → WasSet s → WasSet (time_sync_request_now starts s).1
unfolding time_sync_request_now
ask-WasSet starts s v =
    let P = λ (q : RequestResult × TimeSync). WasSet q.1 in
    let asked = requested (time_sync_start starts s) in
    let later : RequestResult × TimeSync =
      if is_syncing s.state then (request_busy, s) else asked in
    if_both P (not s.wifi_ready) (request_no_network, s) later (λ _. v)
      (λ _.
        if_both P (is_syncing s.state) (request_busy, s) asked (λ _. v)
          (λ _. requested-WasSet _ (start-WasSet starts s v)))

happens-WasSet : (e : SyncEvent) (s : TimeSync) → IsTicking e → WasSet s → WasSet (happens e s)
unfolding happens IsTicking time_sync_on_wifi_ready time_sync_poll time_sync_is_valid
happens-WasSet (wifi_up starts) s t v =
    start-WasSet starts (record s { wifi_ready = true; next_retry_ms = 0 })
      (record { once = v.once; state_is = v.state_is })
happens-WasSet (poll starts answer now_ms) s t v =
    if_both WasSet (not s.wifi_ready || not (has_port answer)) s
      (poll_state s.state starts answer now_ms s) (λ _. v)
      (λ _. state-WasSet s.state starts answer now_ms s refl t v)
happens-WasSet (ask starts) s t v = ask-WasSet starts s v

events-WasSet :
    (es : List SyncEvent) (s : TimeSync) → All IsTicking es → WasSet s → WasSet (all_happen es s)
unfolding all_happen
events-WasSet [] s t v = v
events-WasSet (e ∷ es) s (t, ts) v = events-WasSet es (happens e s) ts (happens-WasSet e s t v)

poll-finishes :
    (s : TimeSync) (starts : Bool) (now_ms : ℕ)
    → s.wifi_ready ≡ true
    → s.state ≡ syncing
    → time_sync_poll starts (done true) now_ms s ≡ time_sync_on_success now_ms s
unfolding time_sync_poll poll_state on_poll_sync time_sync_on_finish
poll-finishes s starts now_ms w e =
    if_false s (poll_state s.state starts (done true) now_ms s)
      {b = not s.wifi_ready || not (has_port (done true))} (rw w refl)
    ∙ ap (λ p. poll_state p starts (done true) now_ms s) e

-- Once a synchronisation that runs has succeeded at a tick other than 0, time_sync_is_valid answers
-- true, or the clock is being synchronised again and it answers false meanwhile, whatever polls at such
-- ticks, requests and Wi-Fi events follow and the time port answers: the state is never unknown again.
pub all_happen-WasSet :
    (es : List SyncEvent) (s : TimeSync) (starts : Bool) (now_ms : ℕ)
    → s.wifi_ready ≡ true
    → s.state ≡ syncing
    → now_ms ≢ 0
    → All IsTicking es
    → WasSet (all_happen es (time_sync_poll starts (done true) now_ms s))
unfolding time_sync_on_success time_sync_is_valid
all_happen-WasSet es s starts now_ms w e n t =
    events-WasSet es _ t
      (rw (poll-finishes s starts now_ms w e) (record { once = n; state_is = inl refl }))
