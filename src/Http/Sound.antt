-- ===== src/Http/Sound.antt =====
-- What a request for the history of crates/gateway/src/http.rs is answered with.
use chronus_gateway.Prelude.{
  ℕ, ◌^◌, ◌≤◌, ◌≡◌, ◌≢◌, refl, ap, sym, ◌∙◌, subst, Bool, true, false, Option, none, some, ltb,
  length, filter, newest, length-newest, Result, ok, err, ok_or, reject_if, >>=-eq-ok, IfOk,
  IfOk-ok, IfOk-bind, IfOk-ok_or, and_then, and_then-eq-some, arith,
}
use chronus_gateway.Config.Errors.{ccsds_apid_max}
use chronus_gateway.Floats.{Float}
use chronus_gateway.Text.{Text, codes, parse_unsigned}
use chronus_gateway.History.{
  HistoryQuery, HistoryStore, HistoryPage, matches, effective_limit, query, max_query_limit,
}
use chronus_gateway.History.Query.{query-newest}
use chronus_gateway.Http.{
  HistoryParams, ParamError, not_a_time, start_after_end, not_an_apid, not_a_count, time_of_text,
  parse_given_time, HttpCalls, given, up_to, is_reversed, parse_u16, parse_apid, parse_limit,
  parse_time_param, parse_query, history,
}

-- A parameter that is not named, or blank, asks for nothing; one that is named is what its text
-- reads as.
abbrev pub Asks : {A : Type 0} → (Text → Option A) → Option Text → Option A → Type 0
Asks read none o = o ≡ none
Asks read (some text) o = (read text ≡ o) × (o ≢ none)

-- The limit is a number, 0 where it is not named.
abbrev pub AsksLimit : Option Text → ℕ → Type 0
AsksLimit none n = n ≡ 0
AsksLimit (some text) n = parse_unsigned (2 ^ 64) text ≡ some n

-- The query says what the request says.
pub record IsAsked {F : Type 0} (fl : Float F) (calls : HttpCalls F) (p : HistoryParams)
    (q : HistoryQuery) : Type 0 where
  pub start_asked : Asks (time_of_text fl calls) (given p.start) q.start_ms
  pub end_asked : Asks (time_of_text fl calls) (given p.end) q.end_ms
  pub apid_asked : Asks parse_u16 (given p.apid) q.apid
  pub limit_asked : AsksLimit (given p.limit) q.limit

-- A query that the request can ask for.
pub record IsSane (q : HistoryQuery) : Type 0 where
  pub in_order : is_reversed q.start_ms q.end_ms ≡ false
  pub apid_fits : (a : ℕ) → q.apid ≡ some a → a ≤ ccsds_apid_max
  pub whole_messages : q.point ≡ none

-- The page that answers a request.
pub record IsAnswered {J F : Type 0} (fl : Float F) (calls : HttpCalls F) (p : HistoryParams)
    (h : HistoryStore J F) (page : HistoryPage J F) : Type 0 where
  pub asked : HistoryQuery
  pub parsed : parse_query fl calls p ≡ ok asked
  pub sane : IsSane asked
  pub says : IsAsked fl calls p asked
  pub entries_are : page.entries ≡ newest (effective_limit asked) (filter (matches asked) h.ring)
  pub truncated_is :
      page.truncated ≡ ltb (effective_limit asked) (length (filter (matches asked) h.ring))
  pub bounded : length page.entries ≤ max_query_limit

up_to-le : (bound v : ℕ) {w : ℕ} → up_to bound v ≡ some w → w ≤ bound
up_to-le bound v e = ground arith

some-inj : {T : Type 0} {a b : T} → some a ≡ some b → a ≡ b
some-inj h = cc

parse_apid-IfOk :
    (raw : Option Text) → IfOk (λ o. (a : ℕ) → o ≡ some a → a ≤ ccsds_apid_max) (parse_apid raw)
parse_apid-IfOk none = IfOk-ok _ none (λ a e. cc)
parse_apid-IfOk (some text) =
    IfOk-bind _ (ok_or (and_then (parse_u16 text) (up_to ccsds_apid_max)) (not_an_apid text)) _
      λ v e. IfOk-ok _ (some v) (λ a same.
        subst (λ n. n ≤ ccsds_apid_max) (some-inj same)
          ((IfOk-ok_or (λ n. n ≤ ccsds_apid_max) (and_then (parse_u16 text) (up_to ccsds_apid_max))
              (not_an_apid text)
              (λ n is.
                let (m, _, fits) = and_then-eq-some (parse_u16 text) (up_to ccsds_apid_max) is in
                up_to-le ccsds_apid_max m fits)).holds
            v e))

err-ok : {u : Unit {0}} {x : ParamError} → ◌≢◌ {A = Result ParamError (Unit {0})} (err x) (ok u)
err-ok h = cc

ok-injective : {A E : Type 0} {a b : A} → ◌≡◌ {A = Result E A} (ok a) (ok b) → a ≡ b
ok-injective h = cc

ordered :
    (b : Bool) {u : Unit {0}}
    → ◌≡◌ {A = Result ParamError (Unit {0})} (reject_if b start_after_end) (ok u)
    → b ≡ false
ordered true e = absurd (err-ok e)
ordered false e = refl

effective_limit-le : (q : HistoryQuery) → effective_limit q ≤ max_query_limit
effective_limit-le q = ground arith

some-none : {T : Type 0} {a : T} → ◌≢◌ {A = Option T} (some a) none
some-none h = cc

up_to-same : (bound v : ℕ) {w : ℕ} → up_to bound v ≡ some w → v ≡ w
up_to-same bound v e = ground arith

parse_apid-Asks : (raw : Option Text) → IfOk (Asks parse_u16 raw) (parse_apid raw)
parse_apid-Asks none = IfOk-ok _ none refl
parse_apid-Asks (some text) =
    IfOk-bind _ (ok_or (and_then (parse_u16 text) (up_to ccsds_apid_max)) (not_an_apid text)) _
      λ v e. IfOk-ok _ (some v) (
        (IfOk-ok_or (λ n. parse_u16 text ≡ some n)
              (and_then (parse_u16 text) (up_to ccsds_apid_max)) (not_an_apid text)
              (λ n is.
                let (m, reads, fits) =
                  and_then-eq-some (parse_u16 text) (up_to ccsds_apid_max) is in
                reads ∙ ap some (up_to-same ccsds_apid_max m fits))).holds
            v e,
        some-none,
      )

parse_limit-AsksLimit : (raw : Option Text) → IfOk (AsksLimit raw) (parse_limit raw)
parse_limit-AsksLimit none = IfOk-ok _ 0 refl
parse_limit-AsksLimit (some text) =
    IfOk-ok_or _ (parse_unsigned (2 ^ 64) text) (not_a_count text) (λ n is. is)

module _ {F : Type 0} (fl : Float F) (calls : HttpCalls F) where
  parse_query-IsSane : (p : HistoryParams) → IfOk IsSane (parse_query fl calls p)
  unfolding parse_query
  parse_query-IsSane p =
      IfOk-bind IsSane (parse_time_param fl calls (codes "start") p.start) _ λ start _.
        IfOk-bind IsSane (parse_time_param fl calls (codes "end") p.end) _ λ end _.
          IfOk-bind IsSane (reject_if (is_reversed start end) start_after_end) _ λ u r.
            IfOk-bind IsSane (parse_apid (given p.apid)) _ λ apid a.
              IfOk-bind IsSane (parse_limit (given p.limit)) _ λ limit _. IfOk-ok IsSane _ (record {
                in_order = ordered (is_reversed start end) r;
                apid_fits = (parse_apid-IfOk (given p.apid)).holds apid a;
                whole_messages = refl;
              })

  parse_given_time-Asks :
      (name : Text) (raw : Option Text)
      → IfOk (Asks (time_of_text fl calls) raw) (parse_given_time fl calls name raw)
  parse_given_time-Asks name none = IfOk-ok _ none refl
  parse_given_time-Asks name (some text) =
      IfOk-bind _ (ok_or (time_of_text fl calls text) (not_a_time name text)) _ λ t e.
        IfOk-ok _ (some t) (
          (IfOk-ok_or (λ v. time_of_text fl calls text ≡ some v) (time_of_text fl calls text)
                (not_a_time name text) (λ v is. is)).holds
              t e,
          some-none,
        )

  parse_query-IsAsked : (p : HistoryParams) → IfOk (IsAsked fl calls p) (parse_query fl calls p)
  unfolding parse_query
  parse_query-IsAsked p =
      IfOk-bind _ (parse_time_param fl calls (codes "start") p.start) _ λ start s.
        IfOk-bind _ (parse_time_param fl calls (codes "end") p.end) _ λ end e.
          IfOk-bind _ (reject_if (is_reversed start end) start_after_end) _ λ u r.
            IfOk-bind _ (parse_apid (given p.apid)) _ λ apid a.
              IfOk-bind _ (parse_limit (given p.limit)) _ λ limit l. IfOk-ok _ _ (record {
                start_asked = (parse_given_time-Asks (codes "start") (given p.start)).holds start s;
                end_asked = (parse_given_time-Asks (codes "end") (given p.end)).holds end e;
                apid_asked = (parse_apid-Asks (given p.apid)).holds apid a;
                limit_asked = (parse_limit-AsksLimit (given p.limit)).holds limit l;
              })

  -- A request for the history is refused, or it is answered for the query that says what the
  -- request says: each time, APID and limit that it names is what its text reads as, and the others
  -- are not set. The times are then in order and the APID has 11 bits, and the answer is the newest
  -- matching messages of the store, in order of arrival and never more than 10,000, and whether
  -- more matched.
  pub history-IsAnswered :
      {J : Type 0} (p : HistoryParams) (h : HistoryStore J F) {page : HistoryPage J F}
      → history fl calls p h ≡ ok page
      → IsAnswered fl calls p h page
  unfolding history
  history-IsAnswered p h {page} e =
      let (q, parsed, is) = >>=-eq-ok (parse_query fl calls p) _ e in
      let same : query q h ≡ page = ok-injective is in
      let found = query-newest q h in
      let entries_are = ap (λ r. r.entries) (sym same) ∙ found.0 in
      record {
        asked = q;
        parsed = parsed;
        sane = (parse_query-IsSane p).holds q parsed;
        says = (parse_query-IsAsked p).holds q parsed;
        entries_are = entries_are;
        truncated_is = ap (λ r. r.truncated) (sym same) ∙ found.1;
        bounded = omega (
          arith,
          ap length entries_are,
          length-newest (effective_limit q) (filter (matches q) h.ring),
          effective_limit-le q,
        );
      }
