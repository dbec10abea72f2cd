-- ===== src/Service/Entity/Persist.antt =====
-- What service.go gives back of a Service that went through the database.
use alresia_voltpanel.Prelude.{
  ℕ, ◌*◌, ◌/◌, ◌^◌, ◌<◌, ◌≡◌, refl, String, true, false, str_eq, arith, ltb, if◌then◌else◌, inl,
  inr, Bool-cases,
}
use alresia_voltpanel.Prelude.Int.{ℤ, pos, magnitude, is_positive, quotient, times}
use alresia_voltpanel.Storage.{second}
use alresia_voltpanel.Storage.Rows.{stored, whole_seconds}
use alresia_voltpanel.Service.Entity.{
  Service, StartRequest, to_service, to_record, from_record, default_duration, default_string,
  default_graceful_timeout, default_restart_window,
}

-- The duration that a number of nanoseconds reads as after a reload.
abbrev pub reloaded : ℕ → ℤ → ℤ
reloaded t fallback = if ltb t second then fallback else pos (t / second * second)

duration-reload :
    (t : ℕ) (fallback : ℤ)
    → t < 2 ^ 63
    → default_duration (times (quotient (pos t) second) second) fallback ≡ reloaded t fallback
unfolding default_duration times quotient
duration-reload t fallback h = ground arith

-- What every service that the manager handles satisfies.
pub record IsValid (s : Service) : Type 0 where
  pub has_kind : str_eq s.kind "" ≡ false
  pub has_policy : str_eq s.restart_policy "" ≡ false
  pub has_status : str_eq s.status "" ≡ false
  pub may_restart : is_positive s.max_restarts ≡ true
  pub waits : is_positive s.graceful_timeout ≡ true
  pub waits_int64 : magnitude s.graceful_timeout < 2 ^ 63
  pub looks_back : is_positive s.restart_window ≡ true
  pub looks_back_int64 : magnitude s.restart_window < 2 ^ 63

default_string_ne :
    (v fallback : String)
    → str_eq fallback "" ≡ false
    → str_eq (default_string v fallback) "" ≡ false
unfolding default_string
default_string_ne v fallback h = elim (Bool-cases (str_eq v "")) [ inl e ↦ rw e h | inr e ↦ rw e e ]

default_duration_bounds :
    (d fallback : ℤ)
    → is_positive fallback ≡ true
    → magnitude fallback < 2 ^ 63
    → magnitude d < 2 ^ 63
    → (is_positive (default_duration d fallback) ≡ true)
      × (magnitude (default_duration d fallback) < 2 ^ 63)
unfolding default_duration
default_duration_bounds d fallback p b h = ground arith

-- Every start request whose durations fit in an int64 gives a valid service, whatever it leaves
-- out: its kind is set, and its timeout and window are positive.
pub to_service-IsValid :
    (r : StartRequest)
    → magnitude r.graceful_timeout < 2 ^ 63
    → magnitude r.restart_window < 2 ^ 63
    → IsValid (to_service r)
unfolding to_service is_positive
to_service-IsValid r g w =
    let (p, b) =
      default_duration_bounds r.graceful_timeout default_graceful_timeout refl (omega arith) g in
    let (p', b') =
      default_duration_bounds r.restart_window default_restart_window refl (omega arith) w in
    record {
      has_kind = default_string_ne r.kind "native" refl;
      has_policy = default_string_ne r.restart_policy "no" refl;
      has_status = refl;
      may_restart = ground arith;
      waits = p;
      waits_int64 = b;
      looks_back = p';
      looks_back_int64 = b';
    }

positive_pos : (d : ℤ) → is_positive d ≡ true → d ≡ pos (magnitude d)
unfolding is_positive
positive_pos d h = ground arith

module _ (s : Service) (v : IsValid s) where
  duration_back :
      (d fallback : ℤ)
      → is_positive d ≡ true
      → magnitude d < 2 ^ 63
      → default_duration (times (quotient d second) second) fallback
        ≡ reloaded (magnitude d) fallback
  duration_back d fallback p b = rw (positive_pos d p) (duration-reload (magnitude d) fallback b)

  -- A valid service comes back from the database as it was, but for the fractions of seconds of
  -- its instants and durations; a duration below one second comes back as the default.
  pub from_record-to_record : from_record (stored (to_record s)) ≡ record s {
    graceful_timeout = reloaded (magnitude s.graceful_timeout) default_graceful_timeout;
    restart_window = reloaded (magnitude s.restart_window) default_restart_window;
    started_at = whole_seconds s.started_at;
    exited_at = whole_seconds s.exited_at;
  }
  unfolding from_record to_record
  from_record-to_record = ground (
    arith,
    duration_back s.graceful_timeout default_graceful_timeout v.waits v.waits_int64,
    duration_back s.restart_window default_restart_window v.looks_back v.looks_back_int64,
  )

  pub from_record-IsValid : IsValid (from_record (stored (to_record s)))
  unfolding is_positive
  from_record-IsValid = rw from_record-to_record (ground (arith, v.has_kind))
