-- ===== src/History/Ring.antt =====
-- `HistoryStore::record`: what the ring holds after any number of messages.
use chronus_gateway.Prelude.{
  kept-newest, ℕ, ◌-◌, ◌%◌, ◌^◌, ◌<◌, ◌≡◌, refl, ap, sym, subst, ◌∙◌, Bool, true, false, Option,
  none, some, List, [], ◌∷◌, ◌++◌, leb, ◌==◌, if◌then◌else◌, length, newest, length-newest,
  newest-newest_append, length-append, Bool-cases, inl, inr, arith, append-nil, append_assoc,
  drop-length, Option-cases,
}
use chronus_gateway.History.{
  Json, HistoryEntry, HistoryStore, Sending, sent, full, disconnected, count_sending, in_memory,
  push_entry, send_to_writer, record_message, from_json,
}

module _ {J F : Type 0} where
  -- The state after the entries `seen`, in order of arrival, with room for `capacity`.
  pub record Recorded (capacity : ℕ) (seen : List (HistoryEntry J F)) (h : HistoryStore J F)
      : Type 0 where
    pub room : h.capacity ≡ capacity
    pub ring_is : h.ring ≡ newest capacity seen
    pub recorded_is : h.stats.recorded ≡ length seen % 2 ^ 64
    pub evicted_is : h.stats.evicted ≡ (length seen - capacity) % 2 ^ 64

  push_entry-Recorded :
      (c : ℕ) (seen : List (HistoryEntry J F)) (e : HistoryEntry J F) (h : HistoryStore J F)
      → 0 < c
      → Recorded c seen h
      → Recorded c (seen ++ e ∷ []) (push_entry e h)
  unfolding push_entry
  push_entry-Recorded c seen e h pos r =
      let size = ap length r.ring_is ∙ length-newest c seen in
      let more = length-append seen (e ∷ []) in
      let rest = ap (λ l. newest c (l ++ e ∷ [])) r.ring_is ∙ newest-newest_append c seen e in
      elim (Bool-cases (leb h.capacity (length h.ring))) [
        | inl f ↦ rw f (record {
          room = r.room;
          ring_is =
              kept-newest c h.ring e pos (omega arith) true
                (ap (λ k. leb k (length h.ring)) (sym r.room) ∙ f)
              ∙ rest;
          recorded_is = omega (arith, r.recorded_is);
          evicted_is = ground (arith, r.evicted_is, r.room);
        })
        | inr f ↦ rw f (record {
          room = r.room;
          ring_is =
              kept-newest c h.ring e pos (omega arith) false
                (ap (λ k. leb k (length h.ring)) (sym r.room) ∙ f)
              ∙ rest;
          recorded_is = omega (arith, r.recorded_is);
          evicted_is = ground (arith, r.evicted_is, r.room);
        })
      ]

  count_sending-Recorded :
      (c : ℕ) (seen : List (HistoryEntry J F)) (o : Sending) (h : HistoryStore J F)
      → Recorded c seen h
      → Recorded c seen (record h { stats = count_sending o h.stats })
  count_sending-Recorded c seen sent h r = record {
    room = r.room;
    ring_is = r.ring_is;
    recorded_is = r.recorded_is;
    evicted_is = r.evicted_is;
  }
  count_sending-Recorded c seen full h r = record {
    room = r.room;
    ring_is = r.ring_is;
    recorded_is = r.recorded_is;
    evicted_is = r.evicted_is;
  }
  count_sending-Recorded c seen disconnected h r = record {
    room = r.room;
    ring_is = r.ring_is;
    recorded_is = r.recorded_is;
    evicted_is = r.evicted_is;
  }

  if-Recorded :
      (c : ℕ) (seen : List (HistoryEntry J F)) (b : Bool) (x y : HistoryStore J F)
      → Recorded c seen x
      → Recorded c seen y
      → Recorded c seen (if b then x else y)
  if-Recorded c seen true x y p q = p
  if-Recorded c seen false x y p q = q

  send_to_writer-Recorded :
      (c : ℕ) (seen : List (HistoryEntry J F)) (try_send : J → Sending) (json : J)
      (h : HistoryStore J F)
      → Recorded c seen h
      → Recorded c seen (send_to_writer try_send json h)
  send_to_writer-Recorded c seen try_send json h r =
      if-Recorded c seen h.writer (record h { stats = count_sending (try_send json) h.stats }) h
        (count_sending-Recorded c seen (try_send json) h r) r

abbrev pub if_accepted : {A : Type 0} → Option A → List A → List A
if_accepted none rest = rest
if_accepted (some a) rest = a ∷ rest

module _ {J V K S F : Type 0} (js : Json J V K S F) where
  -- The entries of the messages that are realtime messages, in order.
  unfoldable pub accepted : List J → List (HistoryEntry J F)
  accepted [] = []
  accepted (m ∷ ms) = if_accepted (from_json js m) (accepted ms)

  unfoldable pub record_all : (J → Sending) → List J → HistoryStore J F → HistoryStore J F
  record_all try_send [] h = h
  record_all try_send (m ∷ ms) h = record_all try_send ms (record_message js try_send m h).0

  record_all-Recorded :
      (try_send : J → Sending) (c : ℕ) (seen : List (HistoryEntry J F)) (ms : List J)
      (h : HistoryStore J F)
      → 0 < c
      → Recorded c seen h
      → Recorded c (seen ++ accepted ms) (record_all try_send ms h)
  unfolding accepted record_all record_message
  record_all-Recorded try_send c seen [] h pos r = rw (append-nil seen) r
  record_all-Recorded try_send c seen (m ∷ ms) h pos r =
      let on : (h.capacity == 0) ≡ false = ground (arith, r.room) in
      elim (Option-cases (from_json js m)) [
        | inl e ↦ rw (on, e) (record_all-Recorded try_send c seen ms h pos r)
        | inr (x, e) ↦
            rw (on, e)
              (subst
                (λ l.
                  Recorded c l
                    (record_all try_send ms (send_to_writer try_send m (push_entry x h))))
                (append_assoc seen (x ∷ []) (accepted ms))
                (record_all-Recorded try_send c (seen ++ x ∷ []) ms _ pos (
                  send_to_writer-Recorded c (seen ++ x ∷ []) try_send m (push_entry x h)
                    (push_entry-Recorded c seen x h pos r))))
      ]

  -- After any messages, a new store with room holds the newest `capacity` of those that are realtime
  -- messages, in order of arrival, and has counted, modulo 2^64, all of them and those that left.
  pub record_all-in_memory :
      (try_send : J → Sending) (capacity : ℕ) (ms : List J)
      → 0 < capacity
      → Recorded capacity (accepted ms) (record_all try_send ms (in_memory capacity))
  record_all-in_memory try_send capacity ms pos =
      record_all-Recorded try_send capacity [] ms (in_memory capacity) pos (record {
        room = refl;
        ring_is = sym (drop-length (0 - capacity) [] (omega arith));
        recorded_is = refl;
        evicted_is = omega arith;
      })
