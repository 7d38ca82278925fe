-- ===== src/ServerCode/Model/Keys.antt =====
-- lib/server-code/model/index.js, computeHandlerKey: `[eventId, target].join('-')`, with the decimal
-- digits of the id.
use Prim.Native.String
use Prim.Native.String.{String}
use js_code_runner.Common.{ℕ, zero, suc, ◌/◌, ◌%◌, ltb, if◌then◌else◌}

abbrev digit : ℕ → String
digit zero = "0"
digit (suc zero) = "1"
digit (suc (suc zero)) = "2"
digit (suc (suc (suc zero))) = "3"
digit (suc (suc (suc (suc zero)))) = "4"
digit (suc (suc (suc (suc (suc zero))))) = "5"
digit (suc (suc (suc (suc (suc (suc zero)))))) = "6"
digit (suc (suc (suc (suc (suc (suc (suc zero))))))) = "7"
digit (suc (suc (suc (suc (suc (suc (suc (suc zero)))))))) = "8"
digit _ = "9"

decimal_on : ℕ → ℕ → String
decimal_on zero n = ""
decimal_on (suc fuel) n =
    let more = String.◌++◌ (decimal_on fuel (n / 10)) (digit (n % 10)) in
    if ltb n 10 then digit n else more

-- A number has no more digits than its value, and 0 has one.
unfoldable pub decimal : ℕ → String
unfolding decimal_on
decimal n = decimal_on (suc n) n

unfoldable pub compute_handler_key : ℕ → String → String
unfolding decimal
compute_handler_key event_id target = String.◌++◌ (decimal event_id) (String.◌++◌ "-" target)
