-- ===== src/Progress/Lifecycle.antt =====
-- Start and Stop of cli/progress.go: the render loop and the channels that end it.
use gobox.Base.{◌≡◌, ◌⊎◌, inl, inr, refl, Bool, true, false}

-- The goroutine of Start; `doneCh` is closed when it exits.
pub data Loop : Type 0 where
  not_started ticking exited : Loop

-- `once` is used up, `stopCh` is closed, and where the render loop stands.
pub record Lifecycle : Type 0 where
  pub once : Bool
  pub stop_closed : Bool
  pub loop : Loop

unfoldable pub fresh : Lifecycle
fresh = record { once = false; stop_closed = false; loop = not_started }

unfoldable pub start_loop : Lifecycle → Lifecycle
start_loop l = elim l.once [ true ↦ l | false ↦ record l { once = true; loop = ticking } ]

-- `Stop` up to its receive from `doneCh`.
unfoldable pub begin_stop : Lifecycle → Lifecycle
begin_stop l = record l { once = true; stop_closed = true }

-- The receive from `doneCh` proceeds.
abbrev pub CanReturn : Lifecycle → Type 0
CanReturn l = l.loop ≡ exited

-- What others do: calls of Start and of Stop, and the render loop's tick or exit.
pub data Event (l k : Lifecycle) : Type 0 where
  start_called : k ≡ start_loop l → Event l k
  stop_called : k ≡ begin_stop l → Event l k
  ticked : l.loop ≡ ticking → k ≡ l → Event l k
  exit : l.loop ≡ ticking → l.stop_closed ≡ true → k ≡ record l { loop = exited } → Event l k

pub data Events (l : Lifecycle) : Lifecycle → Type 0 where
  none_yet : Events l l
  then_event : {k m : Lifecycle} → Events l k → Event k m → Events l m

-- Where a first Stop leaves the render loop out for good.
abbrev IsStuck : Lifecycle → Type 0
IsStuck l = (l.once ≡ true) × (l.loop ≡ not_started)

Event-IsStuck : (l k : Lifecycle) → Event l k → IsStuck l → IsStuck k
unfolding start_loop begin_stop
Event-IsStuck l k (start_called e) (a, b) = rw (e, start_loop, a) (a, b)
Event-IsStuck l k (stop_called e) (a, b) = rw (e, begin_stop) (refl, b)
Event-IsStuck l k (ticked h e) (a, b) = absurd (cc)
Event-IsStuck l k (exit h g e) (a, b) = absurd (cc)

Events-IsStuck : (l k : Lifecycle) → Events l k → IsStuck l → IsStuck k
Events-IsStuck l k none_yet h = h
Events-IsStuck l k (then_event {k = m} es e) h = Event-IsStuck m k e (Events-IsStuck l m es h)

-- A Stop that is called before Start uses up the once and waits for a loop that no later call can
-- start: it never returns.
begin_stop_blocks :
    (l k : Lifecycle) → l.loop ≡ not_started → Events (begin_stop l) k → ¬ CanReturn k
unfolding begin_stop
begin_stop_blocks l k h es r =
    let (a, b) = Events-IsStuck (begin_stop l) k es (refl, h) in absurd (cc)

-- Between Start and Stop: the loop runs, or has seen that `stopCh` is closed.
abbrev IsRunning : Lifecycle → Type 0
IsRunning l = (l.once ≡ true) × ((l.loop ≡ ticking) ⊎ (l.loop ≡ exited))

-- What is left for Stop to return: nothing, or the exit of the loop.
abbrev pub Returns : Lifecycle → Type 0
Returns k = CanReturn k ⊎ ((m : Lifecycle) × Event k m × CanReturn m)

Event-IsStopping :
    (l k : Lifecycle)
    → Event l k
    → IsRunning l
    → l.stop_closed ≡ true
    → IsRunning k × (k.stop_closed ≡ true)
unfolding start_loop begin_stop
Event-IsStopping l k (start_called e) (a, b) c = rw (e, start_loop, a) ((a, b), c)
Event-IsStopping l k (stop_called e) (a, b) c = rw (e, begin_stop) ((refl, b), refl)
Event-IsStopping l k (ticked h e) (a, b) c = rw (e) ((a, b), c)
Event-IsStopping l k (exit h g e) (a, b) c = rw (e) ((a, inr refl), c)

Events-IsStopping :
    (l k : Lifecycle)
    → Events l k
    → IsRunning l
    → l.stop_closed ≡ true
    → IsRunning k × (k.stop_closed ≡ true)
Events-IsStopping l k none_yet h c = (h, c)
Events-IsStopping l k (then_event {k = m} es e) h c =
    let (a, b) = Events-IsStopping l m es h c in Event-IsStopping m k e a b

-- After a Start on a fresh Progress, a Stop that waits is one exit of the render loop away from its
-- return, whatever Starts, Stops and ticks come between.
begin_stop-Returns : (k : Lifecycle) → Events (begin_stop (start_loop fresh)) k → Returns k
unfolding fresh start_loop begin_stop
begin_stop-Returns k es =
    let ((a, b), c) =
      Events-IsStopping (begin_stop (start_loop fresh)) k es (refl, inl refl) refl in
    elim b [
      | inl ticks ↦ inr (record k { loop = exited }, exit ticks c refl, refl)
      | inr over ↦ inl over
    ]
