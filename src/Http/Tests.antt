-- ===== src/Http/Tests.antt =====
-- Requests for the history of crates/gateway/src/http.rs on a store of three messages.
use chronus_gateway.Prelude.{ℕ, ◌≡◌, refl, none, some, true, false, [], ◌∷◌, ok, err}
use chronus_gateway.Integers.{pos}
use chronus_gateway.Validate.Tests.{naturals}
use chronus_gateway.Text.{codes}
use chronus_gateway.History.{
  HistoryEntry, HistoryStore, HistoryPage, no_history, query, collect, matches,
}
use chronus_gateway.Http.{
  HistoryParams, start_after_end, not_an_apid, HttpCalls, parse_query, history,
}
use chronus_gateway.Http.Sound.{IsAnswered, history-IsAnswered}

abbrev calls : HttpCalls ℕ
calls = record { parse_f64 = λ t. none; to_i64 = λ n. pos n; rfc3339_millis = λ t. none }

abbrev entry : ℕ → ℕ → HistoryEntry ℕ ℕ
entry at apid = record { received_at_ms = pos at; apid = apid; values = []; json = at }

abbrev store : HistoryStore ℕ ℕ
store = record {
  capacity = 8;
  ring = entry 10 1 ∷ entry 20 2 ∷ entry 30 1 ∷ [];
  stats = no_history;
  writer = false;
}

abbrev params : HistoryParams
params = record {
  start = some (codes " 5 ");
  end = some (codes "30");
  apid = some (codes "0x1");
  limit = some (codes "1");
}

abbrev page : HistoryPage ℕ ℕ
page = record { entries = entry 30 1 ∷ []; truncated = true }

answered : history naturals calls params store ≡ ok page
unfolding history parse_query query matches collect
answered = refl

history-IsAnswered_example : IsAnswered naturals calls params store page
history-IsAnswered_example = history-IsAnswered naturals calls params store answered

times_reversed :
    parse_query naturals calls (record params { start = some (codes "40") }) ≡ err start_after_end
unfolding parse_query
times_reversed = refl

apid_too_large :
    parse_query naturals calls (record params { apid = some (codes "2048") })
    ≡ err (not_an_apid (codes "2048"))
unfolding parse_query
apid_too_large = refl
