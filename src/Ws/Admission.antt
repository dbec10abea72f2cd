-- ===== src/Ws/Admission.antt =====
-- Who receives what from the hub of internal/ws/ws.go.
use alresia_voltpanel.Prelude.{
  ℕ, ◌≤◌, ◌≡◌, ◌∙◌, refl, sym, String, Bool, true, not, ◌&&◌, List, [], ◌∷◌, map, length,
  length-append, ltb, str_eq_refl, ◌==◌, on_if, arith,
}
use alresia_voltpanel.Ws.Events.{
  Event, serves, leaves, emits, turns, step, run_all, is_trusted, is_admitted, is_emitted, all,
  all-append, all-keep, trusted_of, both, later_emitted, later_admitted,
}
use alresia_voltpanel.Ws.{
  Hub, Handshake, broadcast_size, new_hub, authenticate_request, authenticate, leave, serve_ws,
  emit, run_turn,
}

-- What a step leaves as it was, and the hub's invariant for `ok` clients and `sent` messages.
record Good (ok : ℕ → Bool) (sent : String → Bool) (h h' : Hub) : Type 0 where
  token : h'.token ≡ h.token
  dev : h'.dev ≡ h.dev
  session : h'.session ≡ h.session
  clients : all ok h'.clients ≡ true
  broadcast : all sent h'.broadcast ≡ true
  bounded : length h'.broadcast ≤ broadcast_size

module _ (ok : ℕ → Bool) (sent : String → Bool) where
  module _ (h : Hub) (g : Good ok sent h h) where
    leave-Good : (c : ℕ) → Good ok sent h (leave h c)
    unfolding leave
    leave-Good c = record {
      token = refl;
      dev = refl;
      session = refl;
      clients = all-keep ok (λ d. not (d == c)) h.clients g.clients;
      broadcast = g.broadcast;
      bounded = g.bounded;
    }

    serve_ws-Good :
        (verify : String → Bool) (r : Handshake)
        → (is_trusted h.token h.dev h.session verify r ≡ true → ok r.connection ≡ true)
        → Good ok sent h (serve_ws verify h r)
    unfolding serve_ws
    serve_ws-Good verify r admits =
        on_if (Good ok sent h) (not r.upgraded) _ _ (λ _. g)
          λ _.
            on_if (Good ok sent h) (not (authenticate_request verify h r) && not (authenticate h r))
              _ _ (λ _. g)
              λ e.
                let l = leave-Good r.connection in
                let t = trusted_of verify h r.connection r.upgraded r.cookie r.first e in
                record {
                  token = refl;
                  dev = refl;
                  session = refl;
                  clients = ground (arith, admits t, l.clients);
                  broadcast = g.broadcast;
                  bounded = g.bounded;
                }

    emit-Good : (b : String) → sent b ≡ true → Good ok sent h (emit h b)
    unfolding emit
    emit-Good b e =
        on_if (Good ok sent h) (ltb (length h.broadcast) broadcast_size) _ _
          (λ k. record {
            token = refl;
            dev = refl;
            session = refl;
            clients = g.clients;
            broadcast = ground (arith, all-append sent h.broadcast (b ∷ []), g.broadcast, e);
            bounded = ground (arith, length-append h.broadcast (b ∷ []), k);
          })
          λ _. g

  abbrev is_allowed : ℕ × String → Bool
  is_allowed d = ok d.0 && sent d.1

  abbrev OnlyAllowed : List (ℕ × String) → Type 0
  OnlyAllowed ds = all is_allowed ds ≡ true

  written :
      (b : String) (cs : List ℕ)
      → sent b ≡ true
      → all ok cs ≡ true
      → OnlyAllowed (map (λ c. (c, b)) cs)
  written b [] e h = refl
  written b (c ∷ cs) e h = ground (arith, written b cs e)

  turn-Good :
      (h : Hub)
      → Good ok sent h h
      → (waiting : List String) → all sent waiting ≡ true
      → length waiting ≤ broadcast_size
      → Good ok sent h (run_turn h waiting).0 × OnlyAllowed (run_turn h waiting).1
  unfolding run_turn
  turn-Good h g [] e l = (g, refl)
  turn-Good h g (b ∷ rest) e l = (
    record {
      token = refl;
      dev = refl;
      session = refl;
      clients = g.clients;
      broadcast = ground arith;
      bounded = omega (arith, l);
    },
    written b h.clients (ground arith) g.clients,
  )

  -- the hub after a step, and what the step wrote
  step-Good :
      (h : Hub) (e : Event) (es : List Event)
      → Good ok sent h h
      → ((c : ℕ) → is_admitted h.token h.dev h.session c (e ∷ es) ≡ true → ok c ≡ true)
      → ((b : String) → is_emitted b (e ∷ es) ≡ true → sent b ≡ true)
      → Good ok sent h (step h e).0 × OnlyAllowed (step h e).1
  unfolding step
  step-Good h (serves verify r) es g admits says_it =
      (serve_ws-Good h g verify r (λ t. admits r.connection (ground (arith, t))), refl)
  step-Good h (leaves c) es g admits says_it = (leave-Good h g c, refl)
  step-Good h (emits b) es g admits says_it =
      (emit-Good h g b (says_it b (ground (arith, str_eq_refl b))), refl)
  step-Good h turns es g admits says_it = turn-Good h g h.broadcast g.broadcast g.bounded

  same_admitted :
      (h h' : Hub)
      → Good ok sent h h'
      → (c : ℕ) (es : List Event) → is_admitted h'.token h'.dev h'.session c es ≡ true
      → is_admitted h.token h.dev h.session c es ≡ true
  same_admitted h h' g c es a = rw (sym g.token, sym g.dev, sym g.session) a

  run_all-Allowed :
      (h : Hub) (es : List Event)
      → Good ok sent h h
      → ((c : ℕ) → is_admitted h.token h.dev h.session c es ≡ true → ok c ≡ true)
      → ((b : String) → is_emitted b es ≡ true → sent b ≡ true)
      → OnlyAllowed (run_all h es).1 × (length (run_all h es).0.broadcast ≤ broadcast_size)
  unfolding run_all
  run_all-Allowed h [] g admits says_it = (refl, g.bounded)
  run_all-Allowed h (e ∷ es) g admits says_it =
      let (g', now) = step-Good h e es g admits says_it in
      let h' = (step h e).0 in
      let (rest, bounded) =
        run_all-Allowed h' es
          (record {
            token = refl;
            dev = refl;
            session = refl;
            clients = g'.clients;
            broadcast = g'.broadcast;
            bounded = g'.bounded;
          })
          (λ c a.
            admits c (later_admitted h.token h.dev h.session c e es (same_admitted h h' g' c es a)))
          (λ b a. says_it b (later_emitted b e es a)) in
      (all-append is_allowed (step h e).1 (run_all h' es).1 ∙ both now rest, bounded)

-- After any sequence of handshakes, leaving connections, messages and turns of a new hub, a
-- client to which the hub wrote a message has shown a session cookie that verifies or said the
-- token in a handshake, or the hub is in dev mode; the message was emitted; and no more than 1024
-- messages wait.
pub run_all-admitted :
    (token : String) (dev session : Bool) (es : List Event)
    → let after = run_all (new_hub token dev session) es in
      (all (λ (d : ℕ × String). is_admitted token dev session d.0 es && is_emitted d.1 es) after.1
        ≡ true)
      × (length after.0.broadcast ≤ broadcast_size)
unfolding new_hub
run_all-admitted token dev session es =
    run_all-Allowed (λ c. is_admitted token dev session c es) (λ b. is_emitted b es)
      (new_hub token dev session) es
      (record {
        token = refl;
        dev = refl;
        session = refl;
        clients = refl;
        broadcast = refl;
        bounded = omega arith;
      })
      (λ c a. a) (λ b a. a)
