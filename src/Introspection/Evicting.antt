-- ===== src/Introspection/Evicting.antt =====
-- The goroutine that evicts, and Close, of oidcauth/introspection.go.
use gobox.Base.{
  ℕ, ◌+◌, ◌≡◌, ◌⊎◌, refl, Bool, true, false, List, [], ◌∷◌, ◌++◌, if◌then◌else◌, arith, Bool-cases,
  inl, inr,
}
use gobox.Session.{Instant}
use gobox.Introspection.{Introspector, Event, evict}

-- What the loop of `runCleanup` selects: a tick, or the channel that Close has closed.
pub data Selected : Type 0 where
  tick : (now : Instant) → Selected
  stopped : Selected

-- `runCleanup`, with the events that it gives to the callback.
unfoldable pub run_cleanup : List Selected → Introspector → Introspector × List Event
unfolding evict
run_cleanup [] i = (i, [])
run_cleanup (stopped ∷ later) i = (i, [])
run_cleanup (tick now ∷ later) i =
    let (next, events) = evict i now in
    let (last, more) = run_cleanup later next in (last, events ++ more)

-- The goroutine and the calls of Close: whether `stop` is closed, how often it was, whether the goroutine
-- runs, and the calls that wait for its end.
pub record Life : Type 0 where
  pub closed : Bool
  pub closes : ℕ
  pub running : Bool
  pub waiting : ℕ

-- `Close`, up to its wait: a sync.Once closes the channel.
unfoldable pub begin_close : Life → Life
begin_close l = record l {
  closed = true;
  closes = if l.closed then l.closes else l.closes + 1;
  waiting = l.waiting + 1;
}

-- The steps: a call of Close, the goroutine's end once `stop` is closed, and the return of a call once
-- the goroutine has ended.
pub data Step : Life → Life → Type 0 where
  calls : {l : Life} → Step l (begin_close l)
  ends : {l : Life} → l.closed ≡ true → l.running ≡ true → Step l (record l { running = false })
  returns :
      {l : Life} (n : ℕ) → l.running ≡ false → l.waiting ≡ n + 1 → Step l (record l { waiting = n })

-- No channel is closed twice, which would panic, and a call waits only if the channel is closed.
abbrev pub IsOrderly : Life → Type 0
IsOrderly l = (l.closes ≡ (if l.closed then 1 else 0)) × (l.closed ≡ false → l.waiting ≡ 0)

begin_close-IsOrderly : (l : Life) → IsOrderly l → IsOrderly (begin_close l)
unfolding begin_close
begin_close-IsOrderly l (once, none_waits) = elim (Bool-cases l.closed) [
  | inl shut ↦ (ground (arith, once, shut), λ e. absurd (cc))
  | inr open_ ↦ (ground (arith, once, open_), λ e. absurd (cc))
]

pub Step-IsOrderly : {l m : Life} → Step l m → IsOrderly l → IsOrderly m
Step-IsOrderly calls h = begin_close-IsOrderly _ h
Step-IsOrderly (ends shut runs) h = h
Step-IsOrderly (returns n over waits) (once, none_waits) =
    (once, λ open_. omega (arith, waits, none_waits open_))

-- In an orderly state, as every step leaves it, a call of Close that waits can return, at once or after
-- the end of the goroutine.
pub Close-can_return :
    (l : Life) (n : ℕ)
    → IsOrderly l
    → l.waiting ≡ n + 1
    → (mid after : Life) × (Step l mid ⊎ (mid ≡ l)) × Step mid after × (after.waiting ≡ n)
Close-can_return l n (once, none_waits) waits = elim (Bool-cases l.running) [
  | inr over ↦ (l, record l { waiting = n }, inr refl, Step.returns n over waits, refl)
  | inl runs ↦ elim (Bool-cases l.closed) [
    | inr open_ ↦ absurd (omega (arith, waits, none_waits open_))
    | inl shut ↦ (
      record l { running = false },
      record l { running = false; waiting = n },
      inl (Step.ends shut runs),
      Step.returns n refl waits,
      refl,
    )
  ]
]
