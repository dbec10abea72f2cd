-- ===== src/Ws/Events.antt =====
-- What happens to the hub of internal/ws/ws.go, and whom it admits.
use alresia_voltpanel.Prelude.{
  ℕ, ◌≡◌, refl, String, Bool, true, false, not, ◌&&◌, ◌||◌, Option, none, some, List, [], ◌∷◌, ◌++◌,
  str_eq, ◌==◌, keep, arith,
}
use alresia_voltpanel.Ws.{
  Hub, Handshake, FirstMessage, unread, undecoded, says, authenticate_request, authenticate_first,
  authenticate, leave, serve_ws, emit, run_turn,
}

pub data Event : Type 0 where
  serves : (String → Bool) → Handshake → Event
  leaves : ℕ → Event
  emits : String → Event
  turns : Event

unfoldable pub step : Hub → Event → Hub × List (ℕ × String)
step h (serves verify r) = (serve_ws verify h r, [])
step h (leaves c) = (leave h c, [])
step h (emits b) = (emit h b, [])
step h turns = run_turn h h.broadcast

unfoldable pub run_all : Hub → List Event → Hub × List (ℕ × String)
unfolding step
run_all h [] = (h, [])
run_all h (e ∷ es) = let now = step h e in let rest = run_all now.0 es in (rest.0, now.1 ++ rest.1)

-- A client that shows a session cookie that verifies, or says the token first; or any in dev mode.
abbrev pub is_trusted : String → Bool → Bool → (String → Bool) → Handshake → Bool
is_trusted token dev session verify r =
    dev
    || (session && (elim r.cookie [ none ↦ false | some cookie ↦ verify cookie ]))
    || (elim r.first [
      | unread ↦ false
      | undecoded ↦ false
      | says auth ↦ str_eq auth.type "auth" && str_eq auth.token token
    ])

abbrev pub is_admitted : String → Bool → Bool → ℕ → List Event → Bool
is_admitted token dev session c [] = false
is_admitted token dev session c (serves verify r ∷ es) =
    (r.connection == c && is_trusted token dev session verify r)
    || is_admitted token dev session c es
is_admitted token dev session c (e ∷ es) = is_admitted token dev session c es

abbrev pub is_emitted : String → List Event → Bool
is_emitted b [] = false
is_emitted b (emits a ∷ es) = str_eq a b || is_emitted b es
is_emitted b (e ∷ es) = is_emitted b es

abbrev pub all {ℓ} : {A : Type ℓ} → (A → Bool) → List A → Bool
all p [] = true
all p (a ∷ xs) = p a && all p xs

module _ {A : Type 0} (p : A → Bool) where
  pub all-append : (xs ys : List A) → all p (xs ++ ys) ≡ (all p xs && all p ys)
  all-append [] ys = refl
  all-append (a ∷ xs) ys = ground (arith, all-append xs ys)

  pub all-keep : (q : A → Bool) (xs : List A) → all p xs ≡ true → all p (keep q xs) ≡ true
  all-keep q [] h = refl
  all-keep q (a ∷ xs) h = ground (arith, all-keep q xs)

pub trusted_of :
    (verify : String → Bool) (h : Hub) (c : ℕ) (u : Bool) (cookie : Option String)
    (first : FirstMessage)
    → let r : Handshake = record { connection = c; upgraded = u; cookie = cookie; first = first } in
      (not (authenticate_request verify h r) && not (authenticate h r)) ≡ false
      → is_trusted h.token h.dev h.session verify r ≡ true
unfolding authenticate_request authenticate authenticate_first
trusted_of verify h c u none unread e = ground arith
trusted_of verify h c u none undecoded e = ground arith
trusted_of verify h c u none (says auth) e = ground arith
trusted_of verify h c u (some cookie) unread e = ground arith
trusted_of verify h c u (some cookie) undecoded e = ground arith
trusted_of verify h c u (some cookie) (says auth) e = ground arith

pub both : {x y : Bool} → x ≡ true → y ≡ true → (x && y) ≡ true
both p q = ground (arith, p, q)

pub later_emitted :
    (b : String) (e : Event) (es : List Event)
    → is_emitted b es ≡ true
    → is_emitted b (e ∷ es) ≡ true
later_emitted b (serves verify r) es a = a
later_emitted b (leaves c) es a = a
later_emitted b (emits m) es a = ground arith
later_emitted b turns es a = a

pub later_admitted :
    (token : String) (dev session : Bool) (c : ℕ) (e : Event) (es : List Event)
    → is_admitted token dev session c es ≡ true
    → is_admitted token dev session c (e ∷ es) ≡ true
later_admitted token dev session c (serves verify r) es a = ground arith
later_admitted token dev session c (leaves d) es a = a
later_admitted token dev session c (emits b) es a = a
later_admitted token dev session c turns es a = a
