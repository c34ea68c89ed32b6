-- ===== src/Adjudicator/Misses.antt =====
-- When the subscription of channel/adjudicator/adjudicator_sub.go concludes a channel.
use perun_ckb_backend.Prelude.{
  ℕ, ◌^◌, ◌+◌, ltb, leb, ◌≡◌, refl, ap, ◌∙◌, inl, inr, if◌then◌else◌, ◌||◌, Bool, true, false,
  Option, none, some, List, [], ◌∷◌, ok, arith, Bool-cases, Option-cases, Result-cases, bytes_equal,
  subst,
}
use perun_ckb_backend.Ckb.{Script}
use perun_ckb_backend.Transaction.Handler.{ChannelStatus}
use perun_ckb_backend.Adjudicator.{
  SubError, Poll, live_cell, no_live_cell, failed, Subscription, Chain, Run, Wake, context_done,
  polled, fail, get_challenge_duration_start, get_challenge_duration, register, compare_status,
  miss, emit_event_if_necessary, keep_pcts, observe, poll_status, turn, run, start_run,
  conclude_miss_threshold,
}

-- Whether a live cell was found, and how often none was since the last one. A poll that failed says
-- nothing.
abbrev pub count : Bool × ℕ → List Wake → Bool × ℕ
count c [] = c
count c (context_done ∷ ws) = count c ws
count c (polled failed ∷ ws) = count c ws
count c (polled (live_cell block pcts new_status) ∷ ws) = count (true, 0) ws
count (found, n) (polled no_live_cell ∷ ws) = count (found, if found then n + 1 else n) ws

-- The fields of a subscription that a registration leaves alone.
record SameCount (a b : Subscription) : Type 0 where
  found : b.found_live_cell_once ≡ a.found_live_cell_once
  misses : b.consecutive_misses ≡ a.consecutive_misses
  concluded : b.concluded ≡ a.concluded

SameCount-refl : (a : Subscription) → SameCount a a
SameCount-refl a = record { found = refl; misses = refl; concluded = refl }

or_true : (b : Bool) → (b || true) ≡ true
or_true true = refl
or_true false = refl

keep_pcts-SameCount : (pcts : Script) (a : Subscription) → SameCount a (keep_pcts pcts a)
unfolding keep_pcts
keep_pcts-SameCount pcts a = elim (Option-cases a.pcts) [
  | inl e ↦ record { found = ground arith; misses = ground arith; concluded = ground arith }
  | inr (old, e) ↦ record { found = ground arith; misses = ground arith; concluded = ground arith }
]

module _ (chain : Chain) where
  get_challenge_duration-SameCount :
      (a b : Subscription) (d : ℕ)
      → get_challenge_duration chain a ≡ some (ok (d, b))
      → SameCount a b
  unfolding get_challenge_duration
  get_challenge_duration-SameCount a b d h = elim (Option-cases a.challenge_duration) [
    | inr (x, e) ↦ subst (SameCount a) {x = a} {y = b} (ground arith) (SameCount-refl a)
    | inl e ↦ elim (Option-cases a.pcts) [
      | inl f ↦ absurd (ground arith)
      | inr (pcts, f) ↦ elim (Option-cases (chain.duration_of pcts.args)) [
        | inl g ↦ absurd (ground arith)
        | inr (ms, g) ↦ elim (Bool-cases (ltb (2 ^ 63) (ms + 1))) [
          | inl k ↦ absurd (ground arith)
          | inr k ↦ record { found = ground arith; misses = ground arith; concluded = ground arith }
        ]
      ]
    ]
  ]

  register-SameCount :
      (s : ChannelStatus) (block : ℕ) (a b : Subscription) (changed : Bool)
      → register chain s block a ≡ some (changed, b)
      → SameCount a b
  unfolding register fail
  register-SameCount s block a b changed h =
      elim (Option-cases (get_challenge_duration_start chain 5 block)) [
        | inl e ↦ record { found = ground arith; misses = ground arith; concluded = ground arith }
        | inr (start, e) ↦ elim (Option-cases (get_challenge_duration chain a)) [
          | inl f ↦ absurd (ground arith)
          | inr (r, f) ↦ elim (Result-cases r) [
            | inr (x, g) ↦ record {
              found = ground arith;
              misses = ground arith;
              concluded = ground arith;
            }
            | inl ((d, m), g) ↦
                let same = get_challenge_duration-SameCount a m d (f ∙ ap some g) in
                record {
                  found = ground (arith, same.found);
                  misses = ground (arith, same.misses);
                  concluded = ground (arith, same.concluded);
                }
          ]
        ]
      ]

  compare_status-SameCount :
      (old new_status : Option ChannelStatus) (block : ℕ) (a b : Subscription) (changed : Bool)
      → compare_status chain old new_status block a ≡ some (changed, b)
      → SameCount a b
  unfolding compare_status fail
  compare_status-SameCount old none block a b changed h = record {
    found = ground arith;
    misses = ground arith;
    concluded = ground arith;
  }
  compare_status-SameCount none (some s) block a b changed h = record {
    found = ground arith;
    misses = ground arith;
    concluded = ground arith;
  }
  compare_status-SameCount (some old) (some s) block a b changed h =
      elim (Bool-cases (bytes_equal (chain.status_bytes old) (chain.status_bytes s))) [
        | inl e ↦ record { found = ground arith; misses = ground arith; concluded = ground arith }
        | inr e ↦ elim (Bool-cases old.funded) [
          | inr f ↦ record { found = ground arith; misses = ground arith; concluded = ground arith }
          | inl f ↦ elim (Bool-cases s.disputed) [
            | inr g ↦ record {
              found = ground arith;
              misses = ground arith;
              concluded = ground arith;
            }
            | inl g ↦ register-SameCount s block a b changed (ground arith)
          ]
        ]
      ]

  -- The counter of a run that polls agrees with a count, and three misses conclude.
  pub record Tracks (r : Run) (c : Bool × ℕ) : Type 0 where
    pub found : r.subscription.found_live_cell_once ≡ c.0
    pub misses : r.subscription.consecutive_misses ≡ c.1
    pub concluded : r.subscription.concluded ≡ leb conclude_miss_threshold c.1
    pub unseen : c.0 ≡ false → c.1 ≡ 0

  poll_status-Tracks :
      (p : Poll) (r s : Run) (c : Bool × ℕ)
      → Tracks r c
      → r.subscription.concluded ≡ false
      → poll_status chain p r ≡ some s
      → Tracks s (count c (polled p ∷ []))
  unfolding poll_status observe emit_event_if_necessary miss keep_pcts
  poll_status-Tracks failed r s (found, n) t active h =
      subst (λ x. Tracks x (found, n)) {x = r} {y = s} (ground arith) t
  poll_status-Tracks no_live_cell r s (found, n) t active h =
      elim (Bool-cases r.subscription.found_live_cell_once) [
        | inl e ↦ record {
          found = ground (arith, t.found);
          misses = ground (arith, t.found, t.misses);
          concluded = ground (arith, t.found, t.misses, t.concluded);
          unseen = λ u. ground (arith, t.found);
        }
        | inr e ↦ record {
          found = ground (arith, t.found);
          misses = ground (arith, t.found, t.misses);
          concluded = ground (arith, t.found, t.misses, t.concluded);
          unseen = λ u. ground (arith, t.found, t.unseen);
        }
      ]
  poll_status-Tracks (live_cell block pcts new_status) r s (found, n) t active h =
      let a = keep_pcts pcts r.subscription in
      let kept = keep_pcts-SameCount pcts r.subscription in
      let seen : Subscription = record a {
        found_live_cell_once = a.found_live_cell_once || true;
        consecutive_misses = 0;
      } in
      elim (Option-cases (compare_status chain r.old_status new_status block seen)) [
        | inl e ↦ absurd (ground (arith, or_true a.found_live_cell_once))
        | inr ((changed, b), e) ↦
            let same = compare_status-SameCount r.old_status new_status block seen b changed e in
            let result : s.subscription ≡ b = ground (arith, or_true a.found_live_cell_once) in
            record {
              found = ground (arith, same.found, or_true a.found_live_cell_once, result);
              misses = ground (arith, same.misses, result);
              concluded = ground (arith, same.concluded, kept.concluded, active, result);
              unseen = λ u. ground arith;
            }
      ]

  -- A turn of a run that goes on.
  turn-Tracks :
      (w : Wake) (r s : Run) (c : Bool × ℕ)
      → Tracks r c
      → turn chain w r ≡ some s
      → s.closed ≡ none
      → Tracks s (count c (w ∷ []))
  unfolding turn
  turn-Tracks w r s c t h k = elim (Option-cases r.closed) [
    | inr (x, e) ↦ absurd (ground arith)
    | inl e ↦ turn_open w e h
  ]
    where
      turn_open :
          (w : Wake) → r.closed ≡ none → turn chain w r ≡ some s → Tracks s (count c (w ∷ []))
      turn_open context_done e h = absurd (ground arith)
      turn_open (polled p) e h = elim (Option-cases r.subscription.fatal_error) [
        | inr (x, f) ↦ absurd (ground arith)
        | inl f ↦ elim (Bool-cases r.subscription.concluded) [
          | inl g ↦ absurd (ground arith)
          | inr g ↦ poll_status-Tracks p r s c t g (ground arith)
        ]
      ]

  -- A run that ended stays as it is.
  run-closed :
      (ws : List Wake) (r s : Run) (x : Option SubError)
      → r.closed ≡ some x
      → run chain ws r ≡ some s
      → s.closed ≡ some x
  unfolding run turn
  run-closed [] r s x e h = ground arith
  run-closed (w ∷ ws) r s x e h = run-closed ws r s x e (ground arith)

  count-cons :
      (c : Bool × ℕ) (w : Wake) (ws : List Wake) → count (count c (w ∷ [])) ws ≡ count c (w ∷ ws)
  count-cons (found, n) context_done ws = refl
  count-cons (found, n) (polled failed) ws = refl
  count-cons (found, n) (polled (live_cell block pcts new_status)) ws = refl
  count-cons (found, n) (polled no_live_cell) ws = refl

  run-Tracks :
      (ws : List Wake) (r s : Run) (c : Bool × ℕ)
      → Tracks r c
      → run chain ws r ≡ some s
      → s.closed ≡ none
      → Tracks s (count c ws)
  unfolding run
  run-Tracks [] r s (found, n) t h k =
      subst (λ x. Tracks x (found, n)) {x = r} {y = s} (ground arith) t
  run-Tracks (w ∷ ws) r s c t h k = elim (Option-cases (turn chain w r)) [
    | inl e ↦ absurd (ground arith)
    | inr (m, e) ↦ elim (Option-cases m.closed) [
      | inr (x, f) ↦ absurd (ground (arith, run-closed ws m s x f (ground arith)))
      | inl f ↦
          subst (Tracks s) (count-cons c w ws)
            (run-Tracks ws m s (count c (w ∷ [])) (turn-Tracks w r m c t e f) (ground arith) k)
    ]
  ]

  -- While a subscription runs, it has concluded its channel exactly when at least three of its polls
  -- since the last live cell found none, polls that failed left out; it knows whether it ever found
  -- a live cell, and before the first one no poll counts.
  pub run-concluded :
      (ws : List Wake) (r : Run)
      → run chain ws start_run ≡ some r
      → r.closed ≡ none
      → (r.subscription.concluded ≡ leb conclude_miss_threshold (count (false, 0) ws).1)
        × (r.subscription.found_live_cell_once ≡ (count (false, 0) ws).0)
        × ((count (false, 0) ws).0 ≡ false → (count (false, 0) ws).1 ≡ 0)
  unfolding start_run
  run-concluded ws r h k =
      let start : Tracks start_run (false, 0) = record {
        found = refl;
        misses = refl;
        concluded = refl;
        unseen = λ u. refl;
      } in
      let t = run-Tracks ws start_run r (false, 0) start h k in (t.concluded, t.found, t.unseen)
