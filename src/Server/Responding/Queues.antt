-- ===== src/Server/Responding/Queues.antt =====
-- The queues of dust-devil/src/sandstorm/response_handler.rs: each kind of answers in its order.
use mathlib.Core.Path.{subst}
use dust_devil.Base.{
  ◌≡◌, refl, sym, ap, ◌∙◌, Bool, true, false, Option, none, some, List, [], ◌∷◌, ◌++◌, append_assoc,
  append-nil, length, ◌==◌, if◌then◌else◌, All, Bool-cases, inl, inr,
}
use dust_devil.Io.{Error}
use dust_devil.Serialize.Containers.{Result, ok, err}
use dust_devil.Protocol.Responses.{Response}
use dust_devil.Server.Responding.{receiver_buffer_size, no_value, take_first, push_back, enqueue}

-- What a response answers: requests about the sockets of either kind, about metrics, or requests that
-- are answered where they are run, those about the stream of events included. An event of the stream
-- answers no request.
pub data Kind : Type 0 where
  for_socks for_sandstorm for_metrics at_once : Kind

unfoldable pub of_kind : Kind → Response → Bool
of_kind for_socks = elim [
  | Response.list_socks5_sockets r ↦ true
  | Response.add_socks5_socket r ↦ true
  | Response.remove_socks5_socket r ↦ true
  | _ ↦ false
]
of_kind for_sandstorm = elim [
  | Response.list_sandstorm_sockets r ↦ true
  | Response.add_sandstorm_socket r ↦ true
  | Response.remove_sandstorm_socket r ↦ true
  | _ ↦ false
]
of_kind for_metrics = elim [ Response.request_current_metrics r ↦ true | _ ↦ false ]
of_kind at_once = elim [
  | Response.shutdown ↦ true
  | Response.event_stream_config r ↦ true
  | Response.list_users r ↦ true
  | Response.add_user r ↦ true
  | Response.update_user r ↦ true
  | Response.delete_user r ↦ true
  | Response.list_auth_methods r ↦ true
  | Response.toggle_auth_method r ↦ true
  | Response.get_buffer_size r ↦ true
  | Response.set_buffer_size r ↦ true
  | Response.meow ↦ true
  | _ ↦ false
]

-- The responses of a kind.
unfoldable pub only : Kind → List Response → List Response
unfolding of_kind
only k [] = []
only k (r ∷ rs) = let rest = only k rs in if of_kind k r then r ∷ rest else rest

pub only-append : (k : Kind) (xs ys : List Response) → only k (xs ++ ys) ≡ only k xs ++ only k ys
unfolding only
only-append k [] ys = refl
only-append k (r ∷ rs) ys = elim (Bool-cases (of_kind k r)) [
  | inl e ↦ rw e (ap (λ t. r ∷ t) (only-append k rs ys))
  | inr e ↦ rw e (only-append k rs ys)
]

pub only-All : (k : Kind) (xs : List Response) → All (λ r. of_kind k r ≡ true) xs → only k xs ≡ xs
unfolding only
only-All k [] h = refl
only-All k (r ∷ rs) h = rw h.0 (ap (λ t. r ∷ t) (only-All k rs h.1))

pub only_none : (k : Kind) (xs : List Response) → All (λ r. of_kind k r ≡ false) xs → only k xs ≡ []
unfolding only
only_none k [] h = refl
only_none k (r ∷ rs) h = rw h.0 (only_none k rs h.1)

abbrev pub if_some : Option Response → List Response
if_some none = []
if_some (some r) = r ∷ []

module _ {E : Type 0} (answer : E → Option Response) where
  -- What a queue will be answered, in its order.
  unfoldable pub promised : List E → List Response
  promised [] = []
  promised (e ∷ q) = if_some (answer e) ++ promised q

  pub promised-append : (xs ys : List E) → promised (xs ++ ys) ≡ promised xs ++ promised ys
  unfolding promised
  promised-append [] ys = refl
  promised-append (e ∷ q) ys =
      ap (λ t. if_some (answer e) ++ t) (promised-append q ys)
      ∙ sym (append_assoc (if_some (answer e)) (promised q) (promised ys))

  -- A queue after a step that has written `served` and was given `new` receivers.
  pub record Serves (P : Response → Type 0) (q : List E) (out new : List Response) (q' : List E)
      (out' : List Response) : Type 0 where
    pub served : List Response
    pub wrote : out' ≡ out ++ served
    pub order : served ++ promised q' ≡ promised q ++ new
    pub kind : All P served

  abbrev pub ServesResult :
      (P : Response → Type 0) (q : List E) (out new : List Response)
      → Result (List E × List Response) Error
      → Type 0
  ServesResult P q out new (ok (q', out')) = Serves P q out new q' out'
  ServesResult P q out new (err e) = Unit

  module _ (P : Response → Type 0) (kinds : (e : E) → All P (if_some (answer e))) where
    pub take_first-Serves :
        (e : E) (q : List E) (out : List Response)
        → ServesResult P (e ∷ q) out [] (take_first answer e q out)
    unfolding take_first promised
    take_first-Serves e q out = of_answer (answer e) refl
      where
        of_answer :
            (o : Option Response)
            → answer e ≡ o
            → ServesResult P
                (e ∷ q)
                out
                []
                (elim o [ none ↦ err no_value | some r ↦ ok (q, out ++ r ∷ []) ])
        of_answer none h = tt
        of_answer (some r) h = record {
          served = r ∷ [];
          wrote = refl;
          order =
              ap (λ o. if_some o ++ promised q) (sym h)
              ∙ sym (append-nil (if_some (answer e) ++ promised q));
          kind = subst (λ o. All P (if_some o)) h (kinds e);
        }

    push_back-Serves :
        (e : E) (q : List E) (out : List Response) (r : Result (List E × List Response) Error)
        → ServesResult P q out [] r
        → ServesResult P q out (if_some (answer e)) (push_back answer e r)
    unfolding promised
    push_back-Serves e q out (ok (q', out')) s = record {
      served = s.served;
      wrote = s.wrote;
      order =
          ap (λ t. s.served ++ t) (promised-append q' (e ∷ []))
          ∙ sym (append_assoc s.served (promised q') (if_some (answer e) ++ []))
          ∙ ap (λ t. t ++ (if_some (answer e) ++ [])) (s.order ∙ append-nil (promised q))
          ∙ ap (λ t. promised q ++ t) (append-nil (if_some (answer e)));
      kind = s.kind;
    }
    push_back-Serves e q out (err x) s = tt

    pub enqueue-Serves :
        (e : E) (q : List E) (out : List Response)
        → ServesResult P q out (if_some (answer e)) (enqueue answer e q out)
    unfolding enqueue promised
    enqueue-Serves e [] out =
        push_back-Serves e [] out (ok ([], out))
          (record { served = []; wrote = sym (append-nil out); order = refl; kind = tt })
    enqueue-Serves e (d ∷ q) out = elim (Bool-cases (length (d ∷ q) == receiver_buffer_size)) [
      | inl full ↦
          rw full
            (push_back-Serves e (d ∷ q) out (take_first answer d q out) (take_first-Serves d q out))
      | inr room ↦ rw room (
          push_back-Serves e (d ∷ q) out (ok (d ∷ q, out)) (record {
            served = [];
            wrote = sym (append-nil out);
            order = sym (append-nil _);
            kind = tt;
          }))
    ]
