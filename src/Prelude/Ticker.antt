-- ===== src/Prelude/Ticker.antt =====
-- A loop that waits for a ticker or for the end of its context.
use mathlib.Core.List.{List, [], ◌∷◌}

pub data Signal : Type 0 where
  ticked done : Signal

-- `for { select { case <-ctx.Done(): return; case <-ticker.C: body() } }` on a state
unfoldable pub on_ticks {ℓ} : {State : Type ℓ} → (State → State) → List Signal → State → State
on_ticks body [] s = s
on_ticks body (ticked ∷ signals) s = on_ticks body signals (body s)
on_ticks body (done ∷ signals) s = s
