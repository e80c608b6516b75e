-- ===== src/Browser/Reconnecting/Backoff.antt =====
-- The delays of the reconnections, and what is left in the counter.
use Prim.Native.Nat.{◌^◌}
use native.Mathlib.Nat.{pow-suc}
use sneakerbid.Base.{
  ℕ, zero, suc, ◌+◌, ◌-◌, ◌*◌, ◌≤◌, min, Bool, true, false, none, some, ◌≡◌, ◌≢◌, inl, inr, refl,
  arith, Bool-cases, ◌&&◌, if◌then◌else◌,
}
use sneakerbid.Browser.Reconnecting.{
  Source, idle, opening, live, initial_delay_ms, start, schedule_reconnect, handle_error, fire,
  handle_open, stop, restart, unmount, Step, stops, restarts, leaves, opens, fails, fires, leaves,
  Reach, begins, goes, fail_times, add_reconnecting, remove_reconnecting, select_is_reconnecting,
}

-- A timer waits only while there is no connection, and within the bounds of a delay; a hook that is
-- not enabled or has gone has neither.
pub record IsConsistent (max_delay : ℕ) (s : Source) : Type 0 where
  pub alone : (d : ℕ) → s.timer ≡ some d → s.connection ≡ idle
  pub bounded : (d : ℕ) → s.timer ≡ some d → (min initial_delay_ms max_delay ≤ d) × (d ≤ max_delay)
  pub delay_bound : min initial_delay_ms max_delay ≤ s.delay
  pub off : s.enabled ≡ false → (s.timer ≡ none) × (s.connection ≡ idle)

none-some : {d : ℕ} → none ≡ some d → ⊥
none-some e = cc

start-IsConsistent : (m count : ℕ) → IsConsistent m (start count)
unfolding start
start-IsConsistent m count = record {
  alone = λ d e. absurd (none-some e);
  bounded = λ d e. absurd (none-some e);
  delay_bound = omega arith;
  off = λ e. cc;
}

-- A state without a timer.
at_rest :
    {m : ℕ} (s : Source)
    → s.timer ≡ none
    → min initial_delay_ms m ≤ s.delay
    → (s.enabled ≡ false → s.connection ≡ idle)
    → IsConsistent m s
at_rest s t d off = record {
  alone = λ n e. cc;
  bounded = λ n e. absurd (cc);
  delay_bound = d;
  off = λ e. (t, off e);
}

handle_open-IsConsistent :
    (m : ℕ) (s : Source)
    → s.connection ≡ opening
    → IsConsistent m s
    → IsConsistent m (handle_open s)
unfolding handle_open
handle_open-IsConsistent m s c v = record {
  alone = λ d e. let h = v.alone d e in cc;
  bounded = v.bounded;
  delay_bound = omega arith;
  off = λ e. let h = v.off e in cc;
}

schedule_reconnect-IsConsistent :
    (m : ℕ) (r : Bool) (s : Source)
    → s.connection ≢ idle
    → IsConsistent m s
    → IsConsistent m (schedule_reconnect m r s)
unfolding schedule_reconnect
schedule_reconnect-IsConsistent m r s c v = elim (Bool-cases (s.mounted && r)) [
  | inr e ↦ rw e v
  | inl e ↦ rw e (record {
    alone = λ d t. refl;
    bounded = λ d t. let same : min s.delay m ≡ d = cc in let low = v.delay_bound in omega arith;
    delay_bound = v.delay_bound;
    off = λ f. absurd (c (v.off f).1);
  })
]

handle_error-IsConsistent :
    (m : ℕ) (r : Bool) (s : Source)
    → s.connection ≢ idle
    → IsConsistent m s
    → IsConsistent m (handle_error m r s)
unfolding handle_error
handle_error-IsConsistent m r s c v =
    elim s.mounted as (λ b. IsConsistent m (if b then schedule_reconnect m r s else s)) [
      | true ↦ schedule_reconnect-IsConsistent m r s c v
      | false ↦ v
    ]

fire-IsConsistent :
    (m : ℕ) (s : Source) (d : ℕ) → s.timer ≡ some d → IsConsistent m s → IsConsistent m (fire m s)
unfolding fire
fire-IsConsistent m s d t v =
    let on : s.enabled ≡ false → ⊥ = λ f. let h = (v.off f).0 in cc in
    elim (Bool-cases s.mounted) [
      | inl e ↦ rw e (at_rest _ refl (let low = v.delay_bound in omega arith) (λ f. absurd (on f)))
      | inr e ↦ rw e (at_rest _ refl v.delay_bound (λ f. absurd (on f)))
    ]

stop-IsConsistent : (m : ℕ) (s : Source) → IsConsistent m (stop s)
unfolding stop
stop-IsConsistent m s = at_rest _ refl (omega arith) (λ f. refl)

restart-IsConsistent :
    (m : ℕ) (s : Source) → s.enabled ≡ false → IsConsistent m s → IsConsistent m (restart s)
unfolding restart
restart-IsConsistent m s f v = at_rest _ (v.off f).0 v.delay_bound (λ e. cc)

unmount-IsConsistent : (m : ℕ) (s : Source) → IsConsistent m s → IsConsistent m (unmount s)
unfolding unmount stop
unmount-IsConsistent m s v = elim (Bool-cases s.enabled) [
  | inl e ↦ rw e (at_rest _ refl (omega arith) (λ f. refl))
  | inr e ↦ rw e (at_rest _ refl v.delay_bound (λ f. (v.off e).1))
]

Step-IsConsistent :
    (m : ℕ) (r : Bool) (s t : Source) → Step m r s t → IsConsistent m s → IsConsistent m t
Step-IsConsistent m r _ _ (opens s c) v = handle_open-IsConsistent m s c v
Step-IsConsistent m r _ _ (fails s c) v = handle_error-IsConsistent m r s c v
Step-IsConsistent m r _ _ (fires s d t) v = fire-IsConsistent m s d t v
Step-IsConsistent m r _ _ (stops s a b) v = stop-IsConsistent m s
Step-IsConsistent m r _ _ (restarts s a b) v = restart-IsConsistent m s b v
Step-IsConsistent m r _ _ (leaves s a) v = unmount-IsConsistent m s v

-- In every state that the hook reaches, a timer is set only while there is no connection, its delay
-- is between the initial one and the greatest, and a hook that is disabled has neither a timer nor a
-- connection.
pub Reach-IsConsistent :
    (m : ℕ) (r : Bool) (count : ℕ) (s : Source) → Reach m r count s → IsConsistent m s
Reach-IsConsistent m r _ _ (begins count) = start-IsConsistent m count
Reach-IsConsistent m r count _ (goes _ s t reach step) =
    Step-IsConsistent m r s t step (Reach-IsConsistent m r count s reach)

-- The state after `n` failures.
pub record HasFailed (m n count : ℕ) (s : Source) : Type 0 where
  pub is_mounted : s.mounted ≡ true
  pub delay_is : min s.delay m ≡ min (initial_delay_ms * 2 ^ n) m
  pub count_is : s.count ≡ count + n

doubling :
    (d m n : ℕ)
    → min d m ≡ min (initial_delay_ms * 2 ^ n) m
    → min (min (d * 2) m) m ≡ min (initial_delay_ms * 2 ^ suc n) m
doubling d m n h = let power : 2 ^ suc n ≡ 2 ^ n * 2 = pow-suc 2 n in rw power (omega arith)

fail_times-HasFailed : (m n count : ℕ) → HasFailed m n count (fail_times m true n (start count))
unfolding fail_times start handle_error fire schedule_reconnect add_reconnecting
fail_times-HasFailed m zero count = record {
  is_mounted = refl;
  delay_is = refl;
  count_is = omega arith;
}
fail_times-HasFailed m (suc n) count =
    let before = fail_times-HasFailed m n count in
    rw before.is_mounted (record {
      is_mounted = refl;
      delay_is = doubling _ m n before.delay_is;
      count_is = omega (arith, before.count_is);
    })

-- A connection that has failed `n` times since the start and fails once more is tried again after
-- the initial delay doubled `n` times, but at most after the greatest delay.
pub handle_error-delay :
    (m n count : ℕ)
    → (handle_error m true (fail_times m true n (start count))).timer
      ≡ some (min (initial_delay_ms * 2 ^ n) m)
unfolding handle_error schedule_reconnect
handle_error-delay m n count =
    let failed = fail_times-HasFailed m n count in rw (failed.is_mounted, failed.delay_is) refl

-- A connection that opens after it has failed twice or more since the start leaves the counter above
-- what it was, so that the client goes on to say that it reconnects.
pub handle_open-count :
    (m n count : ℕ)
    → 2 ≤ n
    → let s = handle_open (fail_times m true n (start count)) in
      (s.connection ≡ live) × (s.count ≡ count + (n - 1)) × (select_is_reconnecting s.count ≡ true)
unfolding handle_open remove_reconnecting
handle_open-count m n count h =
    let failed = (fail_times-HasFailed m n count).count_is in
    (refl, omega (arith, failed), rw failed (ground arith))
