-- ===== src/Adjudicator.antt =====
-- channel/adjudicator/adjudicator_sub.go: the subscription that polls a channel's status. A run is fed
-- with what happens at each turn of its loop; the events stand in the order in which they were sent.
pub mod Misses
pub mod Requests
use perun_ckb_backend.Prelude.{
  ℕ, zero, suc, ◌+◌, ◌*◌, ◌%◌, ◌^◌, ◌==◌, ltb, leb, if◌then◌else◌, ◌||◌, ◌&&◌, not, Bool, true,
  false, Option, none, some, List, [], ◌∷◌, ◌++◌, bytes_equal, Result, ok, err, ◌>>=◌,
}
use perun_ckb_backend.Prelude.Words.{u64_mod}
use perun_ckb_backend.Ckb.{Script}
use perun_ckb_backend.Transaction.Handler.{ChannelStatus}

pub data SubError : Type 0 where
  nil_status not_disputed block_time no_pcts bad_constants : SubError

-- `channel.NewConcludedEvent` and `channel.NewRegisteredEvent`, with what the code fills in; the
-- duration is the 64 bits of an int64 of nanoseconds.
pub data Event : Type 0 where
  concluded_event : Event
  registered_event : ℕ → ℕ → ℕ → Event

-- What `GetChannelWithID` or `GetChannelWithExactPCTS` returns: a block and a status with the type
-- script of the channel, the error `ErrNoChannelLiveCell`, or another error.
pub data Poll : Type 0 where
  live_cell : ℕ → Script → Option ChannelStatus → Poll
  no_live_cell failed : Poll

-- `PollingSubscription`; the two channels for the end of the loop hold what was sent on them.
pub record Subscription : Type 0 where
  pub pcts : Option Script
  pub events : List Event
  pub found_live_cell_once : Bool
  pub consecutive_misses : ℕ
  pub concluded : Bool
  pub fatal_error : Option SubError
  pub challenge_duration : Option ℕ

-- The calls into the client and into molecule: the time of a block at each attempt, the challenge
-- duration in the arguments of a type script, and `AsSlice` of a status.
pub record Chain : Type 0 where
  pub get_block_time : ℕ → ℕ → Option ℕ
  pub duration_of : Option (List ℕ) → Option ℕ
  pub status_bytes : ChannelStatus → List ℕ

abbrev pub conclude_miss_threshold : ℕ
conclude_miss_threshold = 3

unfoldable pub new_subscription : Subscription
new_subscription = record {
  pcts = none;
  events = [];
  found_live_cell_once = false;
  consecutive_misses = 0;
  concluded = false;
  fatal_error = none;
  challenge_duration = none;
}

-- `a.fatalErrors <- e`; the loop takes the error before it polls again.
unfoldable pub fail : SubError → Subscription → Bool × Subscription
fail e a = (false, record a { fatal_error = some e })

-- The state of `run`: the subscription, the old status, and how it ended.
pub record Run : Type 0 where
  pub subscription : Subscription
  pub old_status : Option ChannelStatus
  pub closed : Option (Option SubError)

-- What wakes up the `select` of `run`: the context is done, or the interval is over and the chain
-- answers.
pub data Wake : Type 0 where
  context_done : Wake
  polled : Poll → Wake

-- The type script that `pollStatus` keeps.
unfoldable pub keep_pcts : Script → Subscription → Subscription
keep_pcts pcts a = elim a.pcts [ none ↦ record a { pcts = some pcts } | some old ↦ a ]

-- A subscription before its first poll.
unfoldable pub start_run : Run
unfolding new_subscription
start_run = record { subscription = new_subscription; old_status = none; closed = none }

module _ (chain : Chain) where
  -- `getChallengeDurationStart`: the first attempt of those left that succeeds.
  unfoldable pub get_challenge_duration_start : ℕ → ℕ → Option ℕ
  get_challenge_duration_start zero block = none
  get_challenge_duration_start (suc retries) block =
      let rest = get_challenge_duration_start retries block in
      elim (chain.get_block_time retries block) [ none ↦ rest | some t ↦ some t ]

  -- `getChallengeDuration`, which keeps the duration; `none` is its panic.
  unfoldable pub get_challenge_duration : Subscription → Option (Result SubError (ℕ × Subscription))
  get_challenge_duration a = elim a.challenge_duration [
    | some d ↦ some (ok (d, a))
    | none ↦ elim a.pcts [
      | none ↦ some (err SubError.no_pcts)
      | some pcts ↦ elim (chain.duration_of pcts.args) [
        | none ↦ some (err SubError.bad_constants)
        | some ms ↦
            if ltb (2 ^ 63) (ms + 1)
            then none
            else (let d = (ms * 1000000) % u64_mod in
                some (ok (d, record a { challenge_duration = some d })))
      ]
    ]
  ]

  -- The end of `emitEventIfNecessary`: a dispute is registered.
  unfoldable pub register : ChannelStatus → ℕ → Subscription → Option (Bool × Subscription)
  unfolding get_challenge_duration_start get_challenge_duration fail
  register new_status block a = elim (get_challenge_duration_start 5 block) [
    | none ↦ some (fail SubError.block_time a)
    | some start ↦ elim (get_challenge_duration a) [
      | none ↦ none
      | some r ↦ elim r [
        | err e ↦ some (fail e a)
        | ok (d, a) ↦ some (
          true,
          record a { events = a.events ++ registered_event start d new_status.state.version ∷ [] },
        )
      ]
    ]
  ]

  -- The part of `emitEventIfNecessary` for a live cell, after the counter's reset.
  unfoldable pub compare_status :
      Option ChannelStatus → Option ChannelStatus → ℕ → Subscription → Option (Bool × Subscription)
  unfolding register fail
  compare_status old none block a = some (fail SubError.nil_status a)
  compare_status none (some new_status) block a = some (true, a)
  compare_status (some old) (some new_status) block a =
      if bytes_equal (chain.status_bytes old) (chain.status_bytes new_status)
      then some (false, a)
      else (if not old.funded
          then some (true, a)
          else (if not new_status.disputed
              then some (fail SubError.not_disputed a)
              else register new_status block a))

  -- The part of `emitEventIfNecessary` for a miss.
  unfoldable pub miss : Subscription → Bool × Subscription
  miss a =
      let a = record a { consecutive_misses = a.consecutive_misses + 1 } in
      if ltb a.consecutive_misses conclude_miss_threshold
      then (false, a)
      else (true, record a { events = a.events ++ concluded_event ∷ []; concluded = true })

  -- `emitEventIfNecessary`: whether the status changed, and the subscription; `none` is a panic.
  unfoldable pub emit_event_if_necessary :
      Option ChannelStatus
      → Option ChannelStatus
      → ℕ
      → Bool
      → Subscription
      → Option (Bool × Subscription)
  unfolding compare_status miss
  emit_event_if_necessary old new_status block found a =
      let a = record a { found_live_cell_once = a.found_live_cell_once || found } in
      if not a.found_live_cell_once
      then some (false, a)
      else (if not found
          then some (miss a)
          else compare_status old new_status block (record a { consecutive_misses = 0 }))

  -- The call of `emitEventIfNecessary` in `run`, with the old status after it.
  unfoldable pub observe : Option ChannelStatus → ℕ → Bool → Run → Option Run
  unfolding emit_event_if_necessary
  observe new_status block found r =
      elim (emit_event_if_necessary r.old_status new_status block found r.subscription) [
        | none ↦ none
        | some (changed, a) ↦ some (record r {
          subscription = a;
          old_status = if changed then new_status else r.old_status;
        })
      ]

  -- The branch of `run` for a poll.
  unfoldable pub poll_status : Poll → Run → Option Run
  unfolding observe keep_pcts
  poll_status failed r = some r
  poll_status no_live_cell r = observe none 0 false r
  poll_status (live_cell block pcts new_status) r =
      observe new_status block true (record r { subscription = keep_pcts pcts r.subscription })

  -- One turn of the loop of `run`. An error or the conclusion that was sent is ready at once, and taken
  -- unless the context is done too.
  unfoldable pub turn : Wake → Run → Option Run
  unfolding poll_status
  turn w r = elim r.closed [
    | some _ ↦ some r
    | none ↦ elim w [
      | context_done ↦ some (record r { closed = some none })
      | polled p ↦ elim r.subscription.fatal_error [
        | some e ↦ some (record r { closed = some (some e) })
        | none ↦
            if r.subscription.concluded
            then some (record r { closed = some none })
            else poll_status p r
      ]
    ]
  ]

  -- `run`, as long as the list goes.
  unfoldable pub run : List Wake → Run → Option Run
  unfolding turn
  run [] r = some r
  run (w ∷ ws) r = elim (turn w r) [ none ↦ none | some s ↦ run ws s ]
