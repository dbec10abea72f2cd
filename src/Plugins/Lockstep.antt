-- ===== src/Plugins/Lockstep.antt =====
-- Requests and responses of an extension's process in lockstep, over any sequence of calls.
use mathlib.Core.Option
use alresia_voltpanel.Prelude.{
  String, true, false, Option, none, some, List, [], ◌∷◌, ◌++◌, map, ◌≡◌, refl, ap, inl, inr,
  eq_iff, arith, on_if, Bool-cases, Option-cases, Outcome, Outcome-cases,
}
use alresia_voltpanel.Prelude.Dict.{Dict}
use alresia_voltpanel.Plugins.Protocol.{Request, Response, Json}
use alresia_voltpanel.Plugins.Host.{
  ExternalProvider, Turn, CallError, close, read_line, judge, settle, await_response, send,
  raw_params, call,
}

-- one call that the daemon makes, with what happens on the pipes during it
pub record Call : Type 0 where
  pub turn : Turn
  pub method : String
  pub params : Option (Dict String String)

unfoldable pub talk : Json → List Call → ExternalProvider → ExternalProvider
unfolding call
talk json [] e = e
talk json (c ∷ cs) e = talk json cs (call json e c.turn c.method c.params).0

abbrev pub response_ids : Json → List String → List (Option String)
response_ids json texts =
    map (λ text. Option.map (λ (r : Response). r.id) (json.parse_response text)) texts

abbrev pub request_ids : List Request → List (Option String)
request_ids requests = map (λ (r : Request). some r.id) requests

pub record InLockstep (json : Json) (e : ExternalProvider) : Type 0 where
  pub answered : e.closed ≡ false → response_ids json e.received ≡ request_ids e.sent
  pub stopped : e.closed ≡ true → (e.killed ≡ true) × (e.stdin_closed ≡ true)

map-append :
    {A B : Type 0} (f : A → B) (xs : List A) (x : A) → map f (xs ++ x ∷ []) ≡ map f xs ++ f x ∷ []
map-append f [] x = refl
map-append f (y ∷ xs) x = ap (λ ys. f y ∷ ys) (map-append f xs x)

close-InLockstep :
    (json : Json) (e : ExternalProvider) → e.closed ≡ false → InLockstep json (close e)
unfolding close
close-InLockstep json e h = rw h (record { answered = λ bad. cc; stopped = λ _. (refl, refl) })

judge_id :
    (id : String) (r : Option Response)
    → (judge id r).0 ≡ false
    → Option.map (λ (r : Response). r.id) r ≡ some id
unfolding judge
judge_id id none h = cc
judge_id id (some r) h = ground (arith, eq_iff r.id id)

module _ (json : Json) (t : Turn) where
  await_response-InLockstep :
      (e : ExternalProvider) (sent : List Request) (request : Request)
      → e.closed ≡ false
      → e.sent ≡ sent ++ request ∷ []
      → request.id ≡ t.id
      → response_ids json e.received ≡ request_ids sent
      → InLockstep json (await_response json e t).0
  unfolding await_response settle
  await_response-InLockstep e sent request live sends same h =
      elim (Outcome-cases (read_line t.event)) [
        | inl (err, f) ↦ rw (await_response, f) (close-InLockstep json e live)
        | inr (text, f) ↦ elim (Bool-cases (judge t.id (json.parse_response text)).0) [
          | inl ends ↦
              rw (await_response, f, settle, ends)
                (close-InLockstep json (record e { received = e.received ++ text ∷ [] }) live)
          | inr stays ↦
              rw (await_response, f, settle, stays)
                (record {
                  answered = λ _.
                      rw
                        (
                          sends,
                          map-append
                              (λ text.
                                Option.map (λ (r : Response). r.id) (json.parse_response text))
                              e.received text,
                          map-append (λ (r : Request). some r.id) sent request,
                          judge_id t.id (json.parse_response text) stays,
                          same,
                          h,
                        )
                        refl;
                  stopped = λ bad. cc;
                })
        ]
      ]

  send-InLockstep :
      (e : ExternalProvider) (request : Request)
      → e.closed ≡ false
      → request.id ≡ t.id
      → InLockstep json e
      → InLockstep json (send json e t request).0
  unfolding send
  send-InLockstep e request live same h = elim (Option-cases (json.print_request request)) [
    | inl f ↦ rw (send, f) h
    | inr (text, f) ↦ elim (Bool-cases t.writes) [
      | inl w ↦
          rw (send, f, w)
            (await_response-InLockstep (record e { sent = e.sent ++ request ∷ [] }) e.sent request
              live refl same (h.answered live))
      | inr w ↦ rw (send, f, w) (close-InLockstep json e live)
    ]
  ]

  call-InLockstep :
      (e : ExternalProvider) (method : String) (params : Option (Dict String String))
      → InLockstep json e
      → InLockstep json (call json e t method params).0
  unfolding call
  call-InLockstep e method params h =
      on_if (λ (r : ExternalProvider × Outcome CallError String). InLockstep json r.0) e.closed _ _
        (λ c. h)
        (λ live. elim (Option-cases (raw_params json params)) [
          | inl f ↦ rw f h
          | inr (raw, f) ↦
              rw f (
                send-InLockstep e (record { id = t.id; method = method; params = raw }) live refl h)
        ])

-- Any sequence of calls on an extension's process keeps the lockstep: while the process is open,
-- the responses that were received carry the ids of the requests that were sent, one for one and
-- in order; and a closed process has been killed, with its standard input closed.
pub talk-InLockstep :
    (json : Json) (cs : List Call) (e : ExternalProvider)
    → InLockstep json e
    → InLockstep json (talk json cs e)
unfolding talk
talk-InLockstep json [] e h = h
talk-InLockstep json (c ∷ cs) e h =
    talk-InLockstep json cs (call json e c.turn c.method c.params).0
      (call-InLockstep json c.turn e c.method c.params h)
