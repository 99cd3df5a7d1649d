-- ===== src/Http.antt =====
-- The history request of crates/gateway/src/http.rs: its query string, and the page that answers
-- it. A response is the page, or the reason of a `400`; the texts and the JSON are left out.
-- `str::parse::<f64>`, `as i64` and the RFC 3339 parser of `chrono` are the record `HttpCalls`.
pub mod Sound
pub mod Tests
use chronus_gateway.Prelude.{
  ℕ, ◌+◌, ◌^◌, Bool, true, false, not, ◌&&◌, Option, none, some, List, [], ◌∷◌, ltb, leb,
  if◌then◌else◌, and_then, Result, ok, err, ok_or, ◌>>=◌, ◌>>◌, reject_if,
}
use chronus_gateway.Integers.{ℤ, le_int}
use chronus_gateway.Config.Errors.{ccsds_apid_max}
use chronus_gateway.Floats.{Float}
use chronus_gateway.Text.{
  Text, codes, trim, is_blank, parse_unsigned, parse_signed, parse_hex, strip_prefix,
}
use chronus_gateway.History.{HistoryQuery, HistoryStore, HistoryPage, query}
use chronus_gateway.History.Snapshot.{new_query, between, with_apid, with_limit}

pub record HistoryParams : Type 0 where
  pub start : Option Text
  pub end : Option Text
  pub apid : Option Text
  pub limit : Option Text

-- The reasons for which `parse_query` refuses.
pub data ParamError : Type 0 where
  not_a_time : (name raw : Text) → ParamError
  start_after_end : ParamError
  not_an_apid : (raw : Text) → ParamError
  not_a_count : (raw : Text) → ParamError

pub record HttpCalls (F : Type 0) : Type 0 where
  pub parse_f64 : Text → Option F
  pub to_i64 : F → ℤ
  pub rfc3339_millis : Text → Option ℤ

-- `raw.map(str::trim).filter(|r| !r.is_empty())`.
abbrev pub given : Option Text → Option Text
given none = none
given (some raw) = if is_blank (trim raw) then none else some (trim raw)

-- `.or_else`.
abbrev pub or_try : {A : Type 0} → Option A → Option A → Option A
or_try (some a) _ = some a
or_try none other = other

abbrev pub up_to : ℕ → ℕ → Option ℕ
up_to bound v = if leb v bound then some v else none

abbrev pub is_reversed : Option ℤ → Option ℤ → Bool
is_reversed (some s) (some e) = not (le_int s e)
is_reversed _ _ = false

-- A number with or without the prefix of a hexadecimal one.
abbrev pub parse_u16 : Text → Option ℕ
parse_u16 a = elim (or_try (strip_prefix (codes "0x") a) (strip_prefix (codes "0X") a)) [
  | some h ↦ parse_hex (2 ^ 16) h
  | none ↦ parse_unsigned (2 ^ 16) a
]

abbrev pub parse_apid : Option Text → Result ParamError (Option ℕ)
parse_apid none = ok none
parse_apid (some a) =
    ok_or (and_then (parse_u16 a) (up_to ccsds_apid_max)) (not_an_apid a) >>= λ v. ok (some v)

abbrev pub parse_limit : Option Text → Result ParamError ℕ
parse_limit none = ok 0
parse_limit (some l) = ok_or (parse_unsigned (2 ^ 64) l) (not_a_count l)

module _ {F : Type 0} (fl : Float F) (calls : HttpCalls F) where
  abbrev pub fractional_ms : Text → Option ℤ
  fractional_ms raw = and_then (calls.parse_f64 raw) (λ ms.
      if fl.is_finite ms && fl.lt (fl.abs ms) (fl.lit 1000000000000000 0)
      then some (calls.to_i64 ms)
      else none)

  abbrev pub time_of_text : Text → Option ℤ
  time_of_text raw =
      or_try (parse_signed (2 ^ 63) raw) (or_try (fractional_ms raw) (calls.rfc3339_millis raw))

  abbrev pub parse_given_time : Text → Option Text → Result ParamError (Option ℤ)
  parse_given_time name none = ok none
  parse_given_time name (some raw) =
      ok_or (time_of_text raw) (not_a_time name raw) >>= λ t. ok (some t)

  abbrev pub parse_time_param : Text → Option Text → Result ParamError (Option ℤ)
  parse_time_param name raw = parse_given_time name (given raw)

  unfoldable pub parse_query : HistoryParams → Result ParamError HistoryQuery
  parse_query p = do
    start ← parse_time_param (codes "start") p.start
    end ← parse_time_param (codes "end") p.end
    reject_if (is_reversed start end) start_after_end
    apid ← parse_apid (given p.apid)
    limit ← parse_limit (given p.limit)
    ok (with_limit limit (with_apid apid (between start end new_query)))

  -- The handler `history`.
  unfoldable pub history :
      {J : Type 0} → HistoryParams → HistoryStore J F → Result ParamError (HistoryPage J F)
  history p h = parse_query p >>= λ q. ok (query q h)
