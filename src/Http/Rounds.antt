-- ===== src/Http/Rounds.antt =====
-- The loop `do … while (ret > 0)` of src/protocol/http_parser.c, on fuel.
use myworkflow.Base.{ℕ, zero, suc, Option, none, some}
use myworkflow.Http.Types.{Parser, Ret, Round, stop, again}

-- What a round's end means; `next` is the loop's next round.
unfoldable pub after_round : (Parser → Option (Ret × Parser)) → Option Round → Option (Ret × Parser)
after_round next none = none
after_round next (some (stop r q)) = some (r, q)
after_round next (some (again q)) = next q

unfoldable pub rounds : (Parser → Option Round) → ℕ → Parser → Option (Ret × Parser)
unfolding after_round
rounds f zero p = none
rounds f (suc fuel) p = after_round (rounds f fuel) (f p)
