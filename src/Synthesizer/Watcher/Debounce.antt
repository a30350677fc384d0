-- ===== src/Synthesizer/Watcher/Debounce.antt =====
-- pkg/synthesizer/watcher.go: `handleEvent` and the debounce timer. Time passes in steps of a
-- millisecond, and the timer's function runs when its deadline is reached; the informer's events and
-- the passing of time come in any order.
use composite_dra_driver.Prelude.{
  ℕ, zero, suc, ◌+◌, ◌≡◌, refl, ◌∙◌, ap, Bool, true, false, ◌&&◌, List, [], ◌∷◌, ◌++◌, Option, none,
  some, leb, if◌then◌else◌, arith, All,
}
use composite_dra_driver.Synthesizer.Watcher.{ResourceSlice, Watcher, is_relevant_slice}

-- what an informer hands to its handlers
pub data Object : Type 0 where
  slice_object : ResourceSlice → Object
  deleted_final_state_unknown : Object → Object
  other_object : Object

abbrev pub debounce_interval : ℕ
debounce_interval = 500

-- a timer of `time.AfterFunc`, which is active until it is stopped or has fired
pub record Timer : Type 0 where
  pub deadline : ℕ
  pub is_active : Bool

-- the timer, the clock in milliseconds, and how often `onChange` has been called
pub record Watch : Type 0 where
  pub debounce_timer : Option Timer
  pub now : ℕ
  pub changes : ℕ

pub data Event : Type 0 where
  informed : Object → Event
  elapsed : Event

as_slice : Object → Option ResourceSlice
as_slice (slice_object slice) = some slice
as_slice (deleted_final_state_unknown obj) = none
as_slice other_object = none

-- the slice of an event, also where it is a tombstone
unfoldable pub slice_of : Object → Option ResourceSlice
unfolding as_slice
slice_of (slice_object slice) = some slice
slice_of (deleted_final_state_unknown obj) = as_slice obj
slice_of other_object = none

stop : Option Timer → Option Timer
stop none = none
stop (some t) = some (record t { is_active = false })

unfoldable pub debounced_on_change : Watch → Watch
unfolding stop
debounced_on_change s =
    let stopped = record s { debounce_timer = stop s.debounce_timer } in
    record stopped {
      debounce_timer = some (record { deadline = s.now + debounce_interval; is_active = true });
    }

unfoldable pub is_relevant : Watcher → Option ResourceSlice → Bool
is_relevant w none = false
is_relevant w (some slice) = is_relevant_slice w slice

unfoldable pub handle_event : Watcher → Object → Watch → Watch
unfolding debounced_on_change
handle_event w obj s = if is_relevant w (slice_of obj) then debounced_on_change s else s

-- the timer's function, once its deadline is reached
unfoldable pub fire : Option Timer → Watch → Watch
fire none s = s
fire (some t) s =
    if t.is_active && leb t.deadline s.now
    then record s {
      debounce_timer = some (record t { is_active = false });
      changes = s.changes + 1;
    }
    else s

unfoldable pub step : Watcher → Event → Watch → Watch
unfolding handle_event fire
step w (informed obj) s = handle_event w obj s
step w elapsed s = fire s.debounce_timer (record s { now = s.now + 1 })

unfoldable pub run : Watcher → List Event → Watch → Watch
unfolding step
run w [] s = s
run w (e ∷ es) s = run w es (step w e s)

run-append :
    (w : Watcher) (es fs : List Event) (s : Watch) → run w (es ++ fs) s ≡ run w fs (run w es s)
unfolding run
run-append w [] fs s = refl
run-append w (e ∷ es) fs s = run-append w es fs (step w e s)

-- how long a row of events takes
abbrev pub duration : List Event → ℕ
duration [] = 0
duration (informed obj ∷ es) = duration es
duration (elapsed ∷ es) = suc (duration es)

-- an event that does not set the timer again
abbrev pub IsQuiet : Watcher → Event → Type 0
IsQuiet w (informed obj) = is_relevant w (slice_of obj) ≡ false
IsQuiet w elapsed = Unit

abbrev armed : ℕ → ℕ → ℕ → Watch
armed deadline now changes = record {
  debounce_timer = some (record { deadline = deadline; is_active = true });
  now = now;
  changes = changes;
}

abbrev fired : ℕ → ℕ → ℕ → Watch
fired deadline now changes = record {
  debounce_timer = some (record { deadline = deadline; is_active = false });
  now = now;
  changes = changes;
}

-- a timer that has fired does nothing
changes-fired :
    (w : Watcher) (d now changes : ℕ) (es : List Event)
    → All (IsQuiet w) es
    → (run w es (fired d now changes)).changes ≡ changes
unfolding run step handle_event fire
changes-fired w d now changes [] h = refl
changes-fired w d now changes (informed obj ∷ es) (q, h) =
    rw (q, run) (changes-fired w d now changes es h)
changes-fired w d now changes (elapsed ∷ es) (q, h) = changes-fired w d (now + 1) changes es h

changes-armed :
    (w : Watcher) (rest now changes : ℕ) (es : List Event)
    → All (IsQuiet w) es
    → (run w es (armed (now + suc rest) now changes)).changes
      ≡ changes + (if leb (suc rest) (duration es) then 1 else 0)
unfolding run step handle_event fire
changes-armed w rest now changes [] h = ground arith
changes-armed w rest now changes (informed obj ∷ es) (q, h) =
    rw (q, run) (changes-armed w rest now changes es h)
changes-armed w zero now changes (elapsed ∷ es) (q, h) =
    let due : leb (now + 1) (now + 1) ≡ true = ground arith in
    rw (due, run) (changes-fired w (now + 1) (now + 1) (changes + 1) es h ∙ ground arith)
changes-armed w (suc rest) now changes (elapsed ∷ es) (q, h) =
    let early : leb (now + suc (suc rest)) (now + 1) ≡ false = ground arith in
    let later : now + suc (suc rest) ≡ now + 1 + suc rest = omega arith in
    rw (early, run) (rw later (changes-armed w rest (now + 1) changes es h ∙ ground arith))

-- a relevant event sets the timer, whatever state it is in
run-informed :
    (w : Watcher) (obj : Object) (s : Watch)
    → is_relevant w (slice_of obj) ≡ true
    → step w (informed obj) s ≡ armed (s.now + 500) s.now s.changes
unfolding step handle_event debounced_on_change
run-informed w obj s r = rw r refl

-- After any events and then a relevant one, with which no relevant event follows: `onChange` is called
-- for it exactly once when the debounce interval has passed, and not before. So a burst of events
-- less than the interval apart gives one call, and no change is lost.
pub run-changes :
    (w : Watcher) (before after : List Event) (obj : Object) (s : Watch)
    → is_relevant w (slice_of obj) ≡ true
    → All (IsQuiet w) after
    → (run w (before ++ informed obj ∷ after) s).changes
      ≡ (run w before s).changes + (if leb debounce_interval (duration after) then 1 else 0)
unfolding run
run-changes w before after obj s r quiet =
    let s' = run w before s in
    ap (λ t. t.changes) (run-append w before (informed obj ∷ after) s)
    ∙ ap (λ t. (run w after t).changes) (run-informed w obj s' r)
    ∙ changes-armed w 499 s'.now s'.changes after quiet
