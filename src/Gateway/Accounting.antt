-- ===== src/Gateway/Accounting.antt =====
-- Every packet is counted once, and what is published agrees with the counters and the history.
use chronus_gateway.Prelude.{
  ℕ, ◌<◌, ◌^◌, ◌%◌, ◌≡◌, refl, ap, sym, ◌∙◌, subst, inl, inr, Option, none, some, List, [], ◌∷◌,
  ◌++◌, length, length-append, arith,
}
use chronus_gateway.Words.{fetch_add}
use chronus_gateway.Ccsds.{RawFrame}
use chronus_gateway.Rf.{RfConfig}
use chronus_gateway.Validate.{ValidationContext}
use chronus_gateway.Propagator.{TrackingProvider}
use chronus_gateway.History.{in_memory, HistoryStore, record_message}
use chronus_gateway.History.Ring.{Recorded, accepted, record_all-in_memory, record_all}
use chronus_gateway.Frames.Deframer.{TmDeframer, ExtractedPacket}
use chronus_gateway.Frames.Stream.{push}
use chronus_gateway.Gateway.{Station, new_gateway, World, SharedGateway}
use chronus_gateway.Gateway.Process.{process_inner}
use chronus_gateway.Gateway.Pipeline.{
  Selected, shutdown, recv, datagram, lagged, closed, publish_json, publish, publish_all,
  without_packets, handle_datagram, run,
}
use chronus_gateway.Gateway.Ledger.{
  Ledger, tally, ledger, serialized, Outcome, process_inner-ledger,
}

module _ {T S F J V K N B H X : Type 0} (w : World T S F J V K N B H X) where
  -- The books agree: what was published is what was serialized, each message with one latency
  -- sample, and it is what was handed to the channel of clients and to the history, in this order.
  pub record Agrees (start : HistoryStore J F) (l : Ledger F J) : Type 0 where
    pub published_is : l.published ≡ l.emitted
    pub latency_is : l.latency_count ≡ l.emitted
    pub sent_is : l.emitted ≡ length l.telemetry_tx % 2 ^ 64
    pub history_is : l.history ≡ record_all w.json w.try_send l.telemetry_tx start

  record_all-append :
      (ms : List J) (json : J) (h : HistoryStore J F)
      → record_all w.json w.try_send (ms ++ json ∷ []) h
        ≡ (record_message w.json w.try_send json (record_all w.json w.try_send ms h)).0
  unfolding record_all
  record_all-append [] json h = refl
  record_all-append (m ∷ ms) json h =
      record_all-append ms json (record_message w.json w.try_send m h).0

  -- The books after a message was published.
  abbrev sent : J → Ledger F J → Ledger F J
  sent json l = record l {
    published = fetch_add l.published 1;
    history = (record_message w.json w.try_send json l.history).0;
    telemetry_tx = l.telemetry_tx ++ json ∷ [];
  }

  -- One more packet in books that agree.
  abbrev Booked : HistoryStore J F → Ledger F J → Ledger F J → Type 0
  Booked start before after = Agrees start after × (tally after ≡ fetch_add (tally before) 1)

  sent-Booked :
      (start : HistoryStore J F) (l : Ledger F J) (json : J)
      → Agrees start l
      → Booked start l (sent json (serialized l))
  sent-Booked start l json a =
      let size = length-append l.telemetry_tx (json ∷ []) in
      (
        record {
          published_is = ap (λ n. fetch_add n 1) a.published_is;
          latency_is = ap (λ n. fetch_add n 1) a.latency_is;
          sent_is = omega (arith, size, a.sent_is);
          history_is =
              ap (λ h. (record_message w.json w.try_send json h).0) a.history_is
              ∙ sym (record_all-append l.telemetry_tx json start);
        },
        omega arith,
      )

  publish_json-ledger :
      (start : HistoryStore J F) (l : Ledger F J) (r : SharedGateway T F J × Option J)
      → Agrees start l
      → Outcome l (ledger r.0) r.1
      → Booked start l (ledger (publish_json w r))
  publish_json-ledger start l (g, none) a (inl e) = subst (Booked start l) (sym e) (
    record {
      published_is = a.published_is;
      latency_is = a.latency_is;
      sent_is = a.sent_is;
      history_is = a.history_is;
    },
    omega arith,
  )
  publish_json-ledger start l (g, none) a (inr e) = subst (Booked start l) (sym e) (
    record {
      published_is = a.published_is;
      latency_is = a.latency_is;
      sent_is = a.sent_is;
      history_is = a.history_is;
    },
    omega arith,
  )
  publish_json-ledger start l (g, some json) a e =
      subst (λ l'. Booked start l (sent json l')) (sym e) (sent-Booked start l json a)

  publish-Booked :
      (start : HistoryStore J F) (packet : RawFrame T S) (vcid : Option ℕ) (g : SharedGateway T F J)
      → Agrees start (ledger g)
      → Booked start (ledger g) (ledger (publish w packet vcid g))
  unfolding publish
  publish-Booked start packet vcid g a =
      publish_json-ledger start (ledger g) (process_inner w packet none vcid g) a
        (process_inner-ledger w packet none vcid g)

  -- Books that agree still agree after the packets of a datagram, and each of them was counted.
  pub publish_all-Agrees :
      (start : HistoryStore J F) (raw : RawFrame T S) (ps : List ExtractedPacket)
      (g : SharedGateway T F J)
      → Agrees start (ledger g)
      → Agrees start (ledger (publish_all w raw ps g))
        × (tally (ledger (publish_all w raw ps g)) ≡ fetch_add (tally (ledger g)) (length ps))
  unfolding publish_all
  publish_all-Agrees start raw [] g a = (a, omega arith)
  publish_all-Agrees start raw (p ∷ ps) g a =
      let (a1, one) = publish-Booked start (record raw { bytes = p.bytes }) (some p.vcid) g a in
      let (a2, rest) =
        publish_all-Agrees start raw ps (publish w (record raw { bytes = p.bytes }) (some p.vcid) g)
          a1 in
      (a2, omega arith)

  handle_datagram-Agrees :
      (start : HistoryStore J F) (raw : RawFrame T S) (s : SharedGateway T F J × Option TmDeframer)
      → Agrees start (ledger s.0)
      → Agrees start (ledger (handle_datagram w raw s).0)
  unfolding handle_datagram
  handle_datagram-Agrees start raw (g, none) a = (publish-Booked start raw none g a).0
  handle_datagram-Agrees start raw (g, some d) a =
      (publish_all-Agrees start raw (push raw.bytes (without_packets d)).sink.emitted g a).0

  -- Whatever the pipeline receives, datagrams, gaps and a closed channel in any order, books that
  -- agree still agree when it stops: the published messages are as many as those emitted and as
  -- the latency samples, and the history is what recording them in their order gives.
  pub run-Agrees :
      (start : HistoryStore J F) (events : List (Selected T S))
      (s : SharedGateway T F J × Option TmDeframer)
      → Agrees start (ledger s.0)
      → Agrees start (ledger (run w events s).0)
  unfolding run
  run-Agrees start [] s a = a
  run-Agrees start (shutdown ∷ events) s a = a
  run-Agrees start (recv closed ∷ events) s a = a
  run-Agrees start (recv (datagram raw) ∷ events) s a =
      run-Agrees start events (handle_datagram w raw s) (handle_datagram-Agrees start raw s a)
  run-Agrees start (recv (lagged missed) ∷ events) (g, d) a = run-Agrees start events _ a

  -- The packets of a datagram are each counted once: the datagram itself without a deframer, and
  -- with one the packets that it extracts from the datagram.
  pub handle_datagram-tally :
      (start : HistoryStore J F) (raw : RawFrame T S) (g : SharedGateway T F J) (d : TmDeframer)
      → Agrees start (ledger g)
      → (tally (ledger (handle_datagram w raw (g, none)).0) ≡ fetch_add (tally (ledger g)) 1)
        × (tally (ledger (handle_datagram w raw (g, some d)).0)
            ≡ fetch_add
                (tally (ledger g))
                (length (push raw.bytes (without_packets d)).sink.emitted))
  unfolding handle_datagram
  handle_datagram-tally start raw g d a = (
    (publish-Booked start raw none g a).1,
    (publish_all-Agrees start raw (push raw.bytes (without_packets d)).sink.emitted g a).1,
  )

  pub new_gateway-Agrees :
      (station : Station F) (validation : ValidationContext F) (rf : RfConfig) (capacity : ℕ)
      (tracking : Option (TrackingProvider T F))
      → Agrees (in_memory capacity) (ledger (new_gateway station validation rf capacity tracking))
  unfolding record_all
  new_gateway-Agrees station validation rf capacity tracking = record {
    published_is = refl;
    latency_is = refl;
    sent_is = omega arith;
    history_is = refl;
  }

  -- The history of a new gateway with room, after any run, holds the newest of the messages
  -- published that are realtime messages, in their order, as many as its capacity.
  pub run-Recorded :
      (station : Station F) (validation : ValidationContext F) (rf : RfConfig) (capacity : ℕ)
      (tracking : Option (TrackingProvider T F)) (deframer : Option TmDeframer)
      (events : List (Selected T S))
      → 0 < capacity
      → let (g, _) = run w events (new_gateway station validation rf capacity tracking, deframer) in
        Recorded capacity (accepted w.json g.telemetry_tx) g.history
  run-Recorded station validation rf capacity tracking deframer events pos =
      let s = run w events (new_gateway station validation rf capacity tracking, deframer) in
      let books =
        run-Agrees (in_memory capacity) events
          (new_gateway station validation rf capacity tracking, deframer)
          (new_gateway-Agrees station validation rf capacity tracking) in
      subst (Recorded capacity (accepted w.json s.0.telemetry_tx)) (sym books.history_is)
        (record_all-in_memory w.json w.try_send capacity s.0.telemetry_tx pos)
