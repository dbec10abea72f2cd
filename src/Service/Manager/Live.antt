-- ===== src/Service/Manager/Live.antt =====
-- What `Get` of manager.go returns after each change of the manager.
use alresia_voltpanel.Prelude.{
  ℕ, suc, ◌≡◌, String, false, none, some, List, str_eq, eq_iff, ◌∙◌, sym, arith, if◌then◌else◌,
  Bool-cases, Option-cases, inl, inr,
}
use alresia_voltpanel.Prelude.Dict.{get, put, get-put, get-remove, nat_key, string_key, nat_iff}
use alresia_voltpanel.Service.Entity.{Service}
use alresia_voltpanel.Service.Manager.{
  RunningProc, Manager, launched, persist, started, start_process, live,
}
use alresia_voltpanel.Service.Manager.Invariant.{Inv, persist-procs, removed}

pub live-persist :
    (m : Manager) (now : ℕ) (svc : Service) (j : String) → live (persist m now svc) j ≡ live m j
unfolding live
live-persist m now svc j = let (p, w, n) = persist-procs m now svc in rw (p, w)

module _ (m : Manager) (j : String) where
  pub live-managed :
      (h : ℕ) (rp : RunningProc)
      → get j m.procs ≡ some h
      → get h m.waiting ≡ some rp
      → live m j ≡ some rp.svc
  unfolding live
  live-managed h rp e f = rw (e, live) (rw f)

  pub none-live : get j m.procs ≡ none → live m j ≡ none
  unfolding live
  none-live e = rw (e, live)

module _ (m : Manager) (i : Inv m) where
  pub live-tracked :
      (h : ℕ) (rp : RunningProc) → get h m.waiting ≡ some rp → live m rp.svc.id ≡ some rp.svc
  live-tracked h rp e = live-managed m rp.svc.id h rp (i.tracked h rp e) e

  -- A service is live exactly when its id is in `procs`.
  pub live-none : (j : String) → live m j ≡ none → get j m.procs ≡ none
  live-none j e = elim (Option-cases (get j m.procs)) [
    | inl n ↦ n
    | inr (h, f) ↦ let (rp, w, s) = i.managed j h f in ground (arith, live-managed m j h rp f w)
  ]

  pub live-some :
      (j : String) (svc : Service)
      → live m j ≡ some svc
      → (h : ℕ) × (rp : RunningProc) × (get j m.procs ≡ some h)
        × (get h m.waiting ≡ some rp)
        × (rp.svc ≡ svc)
        × (svc.id ≡ j)
  live-some j svc e = elim (Option-cases (get j m.procs)) [
    | inl n ↦ absurd (ground (arith, none-live m j n))
    | inr (h, f) ↦
        let (rp, w, s) = i.managed j h f in
        let same : rp.svc ≡ svc = ground (arith, live-managed m j h rp f w) in
        (h, rp, f, w, same, rw (← same) s)
  ]

  pub live-start_process :
      (svc : Service) (times : List ℕ) (pid now : ℕ) (j : String)
      → live (start_process m svc times (launched pid now)).0 j
        ≡ (if str_eq svc.id j then some (started m.store svc pid now) else live m j)
  unfolding start_process
  live-start_process svc times pid now j = rw live-persist (elim (Bool-cases (str_eq svc.id j)) [
    | inl e ↦ rw e (
        live-managed n j m.next_handle rp
          (ground (arith, e, get-put svc.id j m.next_handle m.procs))
          (ground (
            arith,
            get-put m.next_handle m.next_handle rp m.waiting,
            nat_iff m.next_handle m.next_handle,
          )))
    | inr e ↦ rw e (other e)
  ])
    where
      rp : RunningProc
      rp = record {
        svc = started m.store svc pid now;
        stop_requested = false;
        restart_times = times;
      }

      n : Manager
      n = record m {
        procs = put svc.id m.next_handle m.procs;
        waiting = put m.next_handle rp m.waiting;
        next_handle = suc m.next_handle;
      }

      other : str_eq svc.id j ≡ false → live n j ≡ live m j
      other e = elim (Option-cases (get j m.procs)) [
        | inl f ↦
            none-live n j (ground (arith, e, f, get-put svc.id j m.next_handle m.procs))
            ∙ sym (none-live m j f)
        | inr (k, f) ↦
            let (r, w, s) = i.managed j k f in
            live-managed n j k r (ground (arith, e, f, get-put svc.id j m.next_handle m.procs)) (
              ground (
                arith,
                w,
                i.fresh k r w,
                get-put m.next_handle k rp m.waiting,
                nat_iff m.next_handle k,
              ))
            ∙ sym (live-managed m j k r f w)
      ]

  module _ (h : ℕ) (rp : RunningProc) (found : get h m.waiting ≡ some rp) where
    pub live-removed :
        (j : String)
        → live (removed m i h rp found) j ≡ (if str_eq rp.svc.id j then none else live m j)
    live-removed j = elim (Bool-cases (str_eq rp.svc.id j)) [
      | inl e ↦ rw e (none-live n j (ground (arith, e, get-remove rp.svc.id j m.procs)))
      | inr e ↦ rw e (other e)
    ]
      where
        n : Manager
        n = removed m i h rp found

        other : str_eq rp.svc.id j ≡ false → live n j ≡ live m j
        other e = elim (Option-cases (get j m.procs)) [
          | inl f ↦
              none-live n j (ground (arith, e, f, get-remove rp.svc.id j m.procs))
              ∙ sym (none-live m j f)
          | inr (k, f) ↦
              let (r, w, s) = i.managed j k f in
              live-managed n j k r (ground (arith, e, f, get-remove rp.svc.id j m.procs)) (
                ground (
                  arith,
                  w,
                  s,
                  found,
                  e,
                  get-remove h k m.waiting,
                  nat_iff h k,
                  eq_iff rp.svc.id j,
                ))
              ∙ sym (live-managed m j k r f w)
        ]
