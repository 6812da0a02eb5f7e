-- ===== src/Client/Session.antt =====
-- The stream of responses that the client of sandstorm/src/sandstorm.rs reads, from the server's
-- writing on.
use mathlib.Core.Path.{subst}
use dust_devil.Base.{
  Bool, ℕ, zero, suc, ◌<◌, ◌≡◌, refl, sym, ap, ◌∙◌, some, Option, List, [], ◌∷◌, ◌++◌, length,
  append-nil, append_assoc, arith, All, map,
}
use dust_devil.Io.{Bytes, Outcome, ok, eof, err, Error}
use dust_devil.Io.Reader.{◌>>=◌, continue, take_byte}
use dust_devil.Io.Writer.{Writer, ◌>>◌, done}
use dust_devil.Io.Wire.{Wire}
use dust_devil.Serialize.Numbers.{read_u8, read_enum}
use dust_devil.Serialize.Containers.{Result}
use dust_devil.Protocol.Commands.{SandstormCommandType, read_command}
use dust_devil.Protocol.Events.{Event}
use dust_devil.Protocol.Metrics.{EventStreamConfigResponse}
use dust_devil.Protocol.Responses.{Response, write_response, response_of, read_response}
use dust_devil.Protocol.Responses.Laws.{IsResponse, response_seen, Wire-response}
use dust_devil.Client.{ResponseHandlers, handle_response, reader_task_inner, finish, outcome_of}

-- The server's responses, written one after the other.
unfoldable pub write_responses : List Response → Writer
write_responses [] = done
write_responses (r ∷ rs) = write_response r >> write_responses rs

module _ (receiver_of : ℕ → EventStreamConfigResponse → Option ℕ)
    (takes_event : ℕ → Event → Bool) where
  -- The responses, handled one after the other, to the end of the stream or the first that is refused.
  unfoldable pub handled : List Response → ResponseHandlers → Outcome (Unit {0}) × ResponseHandlers
  handled [] h = (outcome_of (finish h), h)
  handled (r ∷ rs) h = elim (handle_response receiver_of takes_event r h) [
    | Result.ok h' ↦ handled rs h'
    | Result.err e ↦ (err e, h)
  ]

  -- What the reader does once it has a response.
  abbrev after_response :
      ℕ
      → Bytes
      → ResponseHandlers
      → Result ResponseHandlers Error
      → Option (Outcome (Unit {0}) × ResponseHandlers)
  after_response fuel rest h o = elim o [
    | Result.ok h' ↦ reader_task_inner receiver_of takes_event fuel rest h'
    | Result.err e ↦ some (err e, h)
  ]

  after_command :
      (o : Outcome (SandstormCommandType × Bytes)) (fuel : ℕ) (src rest : Bytes) (r : Response)
      (h : ResponseHandlers)
      → o ≡ read_command src
      → continue o response_of ≡ ok (r, rest)
      → reader_task_inner receiver_of takes_event (suc fuel) src h
        ≡ after_response fuel rest h (handle_response receiver_of takes_event r h)
  unfolding reader_task_inner continue
  after_command (ok (c, more)) fuel src rest r h e k = ground (arith, sym e, k)
  after_command eof fuel src rest r h e k = ground (arith, k)
  after_command (err x) fuel src rest r h e k = ground (arith, k)

  reader_step :
      (fuel : ℕ) (src rest : Bytes) (r : Response) (h : ResponseHandlers)
      → read_response src ≡ ok (r, rest)
      → reader_task_inner receiver_of takes_event (suc fuel) src h
        ≡ after_response fuel rest h (handle_response receiver_of takes_event r h)
  unfolding read_response ◌>>=◌
  reader_step fuel src rest r h k = after_command (read_command src) fuel src rest r h refl k

  reader_end :
      (fuel : ℕ) (h : ResponseHandlers)
      → 0 < fuel
      → reader_task_inner receiver_of takes_event fuel [] h ≡ some (outcome_of (finish h), h)
  unfolding reader_task_inner read_command read_enum read_u8 take_byte ◌>>=◌ continue
  reader_end zero h b = ground (arith, b)
  reader_end (suc fuel) h b = refl

  -- The bytes of responses, which the reader handles.
  abbrev ReadsAs : List Response → Type 0
  ReadsAs rs =
      (bytes : Bytes) × ((out : Bytes) → write_responses rs out ≡ (ok tt, out ++ bytes))
      × ((fuel : ℕ) (h : ResponseHandlers)
          → length rs < fuel
          → reader_task_inner receiver_of takes_event fuel bytes h
            ≡ some (handled (map response_seen rs) h))

  then_handled :
      (fuel : ℕ) (rest : Bytes) (rs : List Response) (h : ResponseHandlers)
      (o : Result ResponseHandlers Error)
      → ((h' : ResponseHandlers)
          → reader_task_inner receiver_of takes_event fuel rest h' ≡ some (handled rs h'))
      → after_response fuel rest h o
        ≡ some (elim o [ Result.ok h' ↦ handled rs h' | Result.err e ↦ (err e, h) ])
  then_handled fuel rest rs h (Result.ok h') k = k h'
  then_handled fuel rest rs h (Result.err e) k = refl

  reads_more :
      (r : Response) (rs : List Response) (first bytes : Bytes)
      → ((rest : Bytes) → read_response (first ++ rest) ≡ ok (response_seen r, rest))
      → ((fuel : ℕ) (h : ResponseHandlers)
          → length rs < fuel
          → reader_task_inner receiver_of takes_event fuel bytes h
            ≡ some (handled (map response_seen rs) h))
      → (fuel : ℕ) (h : ResponseHandlers) → suc (length rs) < fuel
      → reader_task_inner receiver_of takes_event fuel (first ++ bytes) h
        ≡ some (handled (response_seen r ∷ map response_seen rs) h)
  unfolding handled
  reads_more r rs first bytes reads runs zero h b = ground (arith, b)
  reads_more r rs first bytes reads runs (suc fuel) h b =
      reader_step fuel (first ++ bytes) bytes (response_seen r) h (reads bytes)
      ∙ then_handled fuel bytes (map response_seen rs) h
          (handle_response receiver_of takes_event (response_seen r) h)
          (λ h'. runs fuel h' (omega (arith, b)))

  reads_none : ReadsAs []
  unfolding write_responses handled done
  reads_none = ([], λ out. rw append-nil, reader_end)

  reads_first :
      (r : Response) (rs : List Response)
      → Wire (write_response r) read_response (response_seen r)
      → ReadsAs rs
      → ReadsAs (r ∷ rs)
  unfolding write_responses ◌>>◌
  reads_first r rs w (bytes, writes, runs) = (
    w.bytes ++ bytes,
    λ out. rw (w.writes, writes, append_assoc),
    reads_more r rs w.bytes bytes w.reads runs,
  )

  responses_read : (rs : List Response) → All IsResponse rs → ReadsAs rs
  responses_read [] h = reads_none
  responses_read (r ∷ rs) h = reads_first r rs (Wire-response r h.0) (responses_read rs h.1)

  -- Responses that are values of their Rust types, with texts and lists short enough to be written, are
  -- written without an error, and the client's reader, with one unit of fuel more than there are
  -- responses, handles what it sees of them in order, to the end of the stream or the first that it
  -- refuses.
  pub reader_task_inner-write_responses :
      (rs : List Response) (fuel : ℕ) (h : ResponseHandlers)
      → All IsResponse rs
      → length rs < fuel
      → ((write_responses rs []).0 ≡ ok tt)
        × (reader_task_inner receiver_of takes_event fuel (write_responses rs []).1 h
            ≡ some (handled (map response_seen rs) h))
  reader_task_inner-write_responses rs fuel h v b =
      let (bytes, writes, runs) = responses_read rs v in
      (
        ap (λ w. w.0) (writes []),
        subst
            (λ bs.
              reader_task_inner receiver_of takes_event fuel bs h
              ≡ some (handled (map response_seen rs) h))
            (ap (λ w. w.1) (sym (writes []))) (runs fuel h b),
      )
