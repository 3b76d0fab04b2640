-- ===== src/Audit/TraceServer/Streams.antt =====
-- The messages of a connection of `TraceServer`, and that `attach` reads them back.
use sagittarius_engine.Prelude.{
  ℕ, suc, ◌+◌, ◌≡◌, length, refl, sym, ap, ◌∙◌, List, [], ◌∷◌, ◌++◌, append_assoc, nat_eq,
  append-nil, map, arith,
}
use sagittarius_engine.Audit.Json.{obj, as_record, as_list-write_each}
use sagittarius_engine.Audit.TraceRecord
use sagittarius_engine.Audit.TraceRecord.{TraceRecord}
use sagittarius_engine.Audit.Hello
use sagittarius_engine.Audit.Hello.{Hello}
use sagittarius_engine.Audit.StateSnapshot.{StateSnapshot}
use sagittarius_engine.Audit.Envelope
use sagittarius_engine.Audit.Envelope.{Envelope, MessageType, trace_batch, snapshot_message}
use sagittarius_engine.Audit.Client.{exit_ok, attach, stream}

-- The messages of a connection behind its greeting.
pub data Message : Type 0 where
  batch : List TraceRecord → Message
  reply : StateSnapshot → Message

abbrev pub envelope : ℕ → Message → Envelope
envelope n (batch rows) = trace_batch n rows
envelope n (reply s) = snapshot_message n s

abbrev pub envelopes : ℕ → List Message → List Envelope
envelopes n [] = []
envelopes n (m ∷ ms) = envelope n m ∷ envelopes (suc n) ms

abbrev pub rows_in : List Message → List TraceRecord
rows_in [] = []
rows_in (batch rows ∷ ms) = rows ++ rows_in ms
rows_in (reply s ∷ ms) = rows_in ms

abbrev pub greeting : Hello → Envelope
greeting h = record { kind = MessageType.hello; seq = 0; body = obj (Hello.to_dict h) }

pub envelopes-snoc :
    (n : ℕ) (ms : List Message) (m : Message)
    → envelopes n (ms ++ m ∷ []) ≡ envelopes n ms ++ envelope (n + length ms) m ∷ []
envelopes-snoc n [] m = ap (λ k. envelope k m ∷ []) (omega arith)
envelopes-snoc n (x ∷ ms) m = ap (◌∷◌ (envelope n x)) (
    envelopes-snoc (suc n) ms m ∙ ap (λ k. envelopes (suc n) ms ++ envelope k m ∷ []) (omega arith))

pub rows_in-append : (ms ns : List Message) → rows_in (ms ++ ns) ≡ rows_in ms ++ rows_in ns
rows_in-append [] ns = refl
rows_in-append (batch rows ∷ ms) ns =
    ap (λ t. rows ++ t) (rows_in-append ms ns) ∙ sym (append_assoc rows (rows_in ms) (rows_in ns))
rows_in-append (reply s ∷ ms) ns = rows_in-append ms ns

-- The client reads back what the server sends.
stream_lem :
    (h : Hello) (records : List TraceRecord) (n : ℕ) (ms : List Message)
    → stream h records (map Envelope.to_dict (envelopes n ms)) ≡ exit_ok (h, records ++ rows_in ms)
unfolding stream trace_batch snapshot_message
stream_lem h records n [] = ap (λ t. exit_ok (h, t)) (sym (append-nil records))
stream_lem h records n (batch rows ∷ ms) =
    rw
      (
        Envelope.from_dict-to_dict (trace_batch n rows),
        as_list-write_each (as_record TraceRecord.from_dict) (λ r. obj (TraceRecord.to_dict r))
            TraceRecord.from_dict-to_dict rows,
      )
      (stream_lem h (records ++ rows) (suc n) ms
        ∙ ap (λ t. exit_ok (h, t)) (append_assoc records rows (rows_in ms)))
stream_lem h records n (reply s ∷ ms) =
    rw (Envelope.from_dict-to_dict (snapshot_message n s)) (stream_lem h records (suc n) ms)

pub attach_lem :
    (h : Hello) (ms : List Message)
    → attach (map Envelope.to_dict (greeting h ∷ envelopes 1 ms)) ≡ exit_ok (h, rows_in ms)
unfolding attach
attach_lem h ms =
    rw (Envelope.from_dict-to_dict (greeting h), Hello.from_dict-to_dict h) (stream_lem h [] 1 ms)
