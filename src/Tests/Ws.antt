-- ===== src/Tests/Ws.antt =====
-- internal/ws/ws.go at a hub with one client that says the token and one that does not.
use alresia_voltpanel.Prelude.{
  ℕ, ◌≤◌, ◌≡◌, refl, String, ◌&&◌, true, false, none, List, [], ◌∷◌, length,
}
use alresia_voltpanel.Ws.{
  Handshake, says, broadcast_size, new_hub, authenticate_request, authenticate_first, authenticate,
  leave, serve_ws, emit, run_turn,
}
use alresia_voltpanel.Ws.Events.{
  Event, serves, emits, turns, step, run_all, is_admitted, is_emitted, all,
}
use alresia_voltpanel.Ws.Admission.{run_all-admitted}

abbrev friend : Handshake
friend = record {
  connection = 1;
  upgraded = true;
  cookie = none;
  first = says (record { type = "auth"; token = "secret" });
}

abbrev stranger : Handshake
stranger = record {
  connection = 2;
  upgraded = true;
  cookie = none;
  first = says (record { type = "auth"; token = "guess" });
}

abbrev events : List Event
events = serves (λ _. false) friend ∷ serves (λ _. false) stranger ∷ emits "started" ∷ turns ∷ []

one_message : (run_all (new_hub "secret" false true) events).1 ≡ (1, "started") ∷ []
unfolding run_all step new_hub serve_ws authenticate_request authenticate authenticate_first leave
    emit run_turn
one_message = refl

run_all-admitted_example :
    let after = run_all (new_hub "secret" false true) events in
    (all
        (λ (d : ℕ × String). is_admitted "secret" false true d.0 events && is_emitted d.1 events)
        after.1
      ≡ true)
    × (length after.0.broadcast ≤ broadcast_size)
run_all-admitted_example = run_all-admitted "secret" false true events
