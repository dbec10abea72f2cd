-- ===== src/Plugins/Loading.antt =====
-- What LoadExtension leaves behind.
use alresia_voltpanel.Prelude.{
  true, false, Option, none, some, ◌≡◌, refl, inl, inr, on_if, Bool-cases, Outcome, failed, done,
  Outcome-cases,
}
use alresia_voltpanel.Prelude.Paths.{FilePath}
use alresia_voltpanel.Plugins.Protocol.{
  Handshake, Manifest, Json, Files, is_supported_version, read_manifest,
}
use alresia_voltpanel.Plugins.Host.{
  ExternalProvider, LoadError, Launch, close, started, read_handshake, greet, load_extension,
  unsupported_version,
}
use alresia_voltpanel.Plugins.Lockstep.{InLockstep}

-- a process that can be called, of a version that the daemon understands
pub record IsReady (json : Json) (e : ExternalProvider) : Type 0 where
  pub running : e.closed ≡ false
  pub supported : is_supported_version e.handshake.protocol_version ≡ true
  pub lockstep : InLockstep json e

abbrev Stopped : ExternalProvider → Type 0
Stopped e = (e.closed ≡ true) × (e.killed ≡ true) × (e.stdin_closed ≡ true)

abbrev pub Settled : Json → ExternalProvider × Option LoadError → Type 0
Settled json (e, none) = IsReady json e
Settled json (e, some err) = Stopped e

close-Stopped : (e : ExternalProvider) → e.closed ≡ false → Stopped (close e)
unfolding close
close-Stopped e h = rw h (refl, refl, refl)

greet-Settled :
    (json : Json) (m : Manifest) (dir : FilePath) (o : Outcome LoadError Handshake)
    → Settled json (greet (started m dir) o)
unfolding greet started
greet-Settled json m dir (failed err) = close-Stopped (started m dir) refl
greet-Settled json m dir (done h) =
    on_if (λ r. Settled json r) (is_supported_version h.protocol_version)
      (record (started m dir) { handshake = h }, none)
      (close (started m dir), some (unsupported_version h.protocol_version))
      (λ v. record {
        running = refl;
        supported = v;
        lockstep = record { answered = λ _. refl; stopped = λ bad. cc };
      })
      (λ _. close-Stopped (started m dir) refl)

-- The process that is left, where there is one, agrees with the answer.
pub data AsAnswered (json : Json) : Option ExternalProvider × Option LoadError → Type 0 where
  nothing_started : (err : LoadError) → AsAnswered json (none, some err)
  loaded : (e : ExternalProvider) → IsReady json e → AsAnswered json (some e, none)
  stopped :
      (e : ExternalProvider) (err : LoadError) → Stopped e → AsAnswered json (some e, some err)

answer_matches :
    (json : Json) (r : ExternalProvider × Option LoadError)
    → Settled json r
    → AsAnswered json (some r.0, r.1)
answer_matches json (e, none) h = loaded e h
answer_matches json (e, some err) h = stopped e err h

-- `LoadExtension` either starts no process and fails; or succeeds with an open process of a
-- supported protocol version, in lockstep; or fails and leaves the process that it started closed
-- and killed.
pub load_extension-AsAnswered :
    (json : Json) (files : Files) (launch : Launch) (path : FilePath)
    → AsAnswered json (load_extension json files launch path)
unfolding load_extension
load_extension-AsAnswered json files launch path =
    elim (Outcome-cases (read_manifest json files path)) [
      | inl (err, f) ↦ rw (load_extension, f) (nothing_started _)
      | inr ((m, dir), f) ↦ elim (Bool-cases launch.starts) [
        | inl s ↦
            rw (load_extension, f, s)
              (answer_matches json _ (greet-Settled json m dir (read_handshake json launch.event)))
        | inr s ↦ rw (load_extension, f, s) (nothing_started _)
      ]
    ]
