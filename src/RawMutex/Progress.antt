-- ===== src/RawMutex/Progress.antt =====
-- What the `unlock` of src/mutex/raw_mutex.rs does for the threads that sleep.
use co_queue.Base.{
  ℕ, ◌≡◌, ◌≢◌, refl, sym, ap, ◌∙◌, Bool, false, none, some, update, update_self, update_ne,
  Option-cases, inl, inr,
}
use co_queue.RawMutex.{Word, Token, ParkingLot}
use co_queue.RawMutex.System
use co_queue.RawMutex.System.{Pc, sleeping, woken, leaving, idle, System, Step, Reach}
use co_queue.RawMutex.Invariant.{asleep, sleeping_of, Inv, Reach-Inv}

module _ (lot : ParkingLot) where
  open lot use {Lot, unpark_one, waits}

  -- The thread that was taken out of the queue was asleep, and is woken with a token.
  pub record WakesOne (s s' : System lot) : Type 0 where
    pub thread : ℕ
    pub token : Token
    pub slept : s.pc thread ≡ sleeping
    pub awake : s'.pc thread ≡ woken token

  unparked_slept :
      {n : ℕ} {s : System lot} (u : ℕ) (q : Lot) (more : Bool)
      → Inv lot n s
      → unpark_one s.queue ≡ some (u, q, more)
      → s.pc u ≡ sleeping
  unparked_slept {s = s} u q more inv found =
      sleeping_of (s.pc u) (sym (inv.queued u) ∙ lot.unpark-waits s.queue u q more found)

  unpark-WakesOne :
      {n i : ℕ} {s : System lot} (u : ℕ) (q : Lot) (more : Bool) (w : Word) (tok : Token)
      → Inv lot n s
      → s.pc i ≡ leaving
      → unpark_one s.queue ≡ some (u, q, more)
      → WakesOne s (record { state = w; queue = q; pc = update (update s.pc u (woken tok)) i idle })
  unpark-WakesOne {i = i} {s = s} u q more w tok inv at found =
      let slept = unparked_slept u q more inv found in
      let apart : i ≢ u = λ e. cc (ap s.pc e) in
      record {
        thread = u;
        token = tok;
        slept = slept;
        awake =
            update_ne (update s.pc u (woken tok)) i idle u apart ∙ update_self s.pc u (woken tok);
      }

  not_nobody :
      {n : ℕ} {s : System lot} (t : ℕ) → Inv lot n s → s.pc t ≡ sleeping → unpark_one s.queue ≢ none
  not_nobody {s = s} t inv sleeps nobody =
      cc (inv.queued t, lot.unpark-none s.queue nobody t, ap asleep sleeps)

  leaving-WakesOne :
      {n i t : ℕ} {s s' : System lot}
      → Step lot false n s i s'
      → Inv lot n s
      → s.pc i ≡ leaving
      → s.pc t ≡ sleeping
      → WakesOne s s'
  leaving-WakesOne {t = t} (System.wakes_none at' nobody) inv at sleeps =
      absurd (not_nobody t inv sleeps nobody)
  leaving-WakesOne (System.wakes u q more fair at' found r e) inv at sleeps =
      unpark-WakesOne u q more r.0 r.1 inv at found
  leaving-WakesOne (System.lock_fast at' e) inv at sleeps = absurd (cc (sym at ∙ at'))
  leaving-WakesOne (System.lock_misses at') inv at sleeps = absurd (cc (sym at ∙ at'))
  leaving-WakesOne (System.loads at') inv at sleeps = absurd (cc (sym at ∙ at'))
  leaving-WakesOne (System.grabs w at' l e) inv at sleeps = absurd (cc (sym at ∙ at'))
  leaving-WakesOne (System.grab_fails w at' l) inv at sleeps = absurd (cc (sym at ∙ at'))
  leaving-WakesOne (System.spins w at' l p) inv at sleeps = absurd (cc (sym at ∙ at'))
  leaving-WakesOne (System.flags w at' l p e) inv at sleeps = absurd (cc (sym at ∙ at'))
  leaving-WakesOne (System.flag_fails w at' l p) inv at sleeps = absurd (cc (sym at ∙ at'))
  leaving-WakesOne (System.was_flagged w at' l p) inv at sleeps = absurd (cc (sym at ∙ at'))
  leaving-WakesOne (System.invalid at' ne) inv at sleeps = absurd (cc (sym at ∙ at'))
  leaving-WakesOne (System.parks at' e) inv at sleeps = absurd (cc (sym at ∙ at'))
  leaving-WakesOne (System.handed at') inv at sleeps = absurd (cc (sym at ∙ at'))
  leaving-WakesOne (System.retries at') inv at sleeps = absurd (cc (sym at ∙ at'))
  leaving-WakesOne (System.unlock_fast at' e) inv at sleeps = absurd (cc (sym at ∙ at'))
  leaving-WakesOne (System.unlock_misses at' ne) inv at sleeps = absurd (cc (sym at ∙ at'))
  leaving-WakesOne (System.tries_load e at') inv at sleeps = absurd (cc (sym at ∙ at'))
  leaving-WakesOne (System.tries_busy w at' l) inv at sleeps = absurd (cc (sym at ∙ at'))
  leaving-WakesOne (System.tries_win w at' l e) inv at sleeps = absurd (cc (sym at ∙ at'))
  leaving-WakesOne (System.tries_fail w at' l) inv at sleeps = absurd (cc (sym at ∙ at'))
  leaving-WakesOne (System.marks_load at') inv at sleeps = absurd (cc (sym at ∙ at'))
  leaving-WakesOne (System.marks_none w at' l) inv at sleeps = absurd (cc (sym at ∙ at'))
  leaving-WakesOne (System.marks w at' l e) inv at sleeps = absurd (cc (sym at ∙ at'))
  leaving-WakesOne (System.mark_fails w at' l) inv at sleeps = absurd (cc (sym at ∙ at'))

  -- While a thread sleeps, a thread that has found PARKED_BIT in its `unlock` can take the next step, and
  -- whatever that is, it wakes a thread that slept. This is so in every state that threads reach that do not
  -- call `try_lock`.
  pub unlock_wakes :
      {n i t : ℕ} {s : System lot}
      → Reach lot false n s
      → s.pc i ≡ leaving
      → s.pc t ≡ sleeping
      → ((s' : System lot) × Step lot false n s i s')
        × ((s' : System lot) → Step lot false n s i s' → WakesOne s s')
  unlock_wakes {n} {i} {t} {s} r at sleeps =
      let inv = Reach-Inv lot r in
      (
        elim (Option-cases (unpark_one s.queue)) [
          | inl nobody ↦ absurd (not_nobody t inv sleeps nobody)
          | inr ((u, q, more), found) ↦ (_, System.wakes u q more false at found _ refl)
        ],
        λ s' st. leaving-WakesOne st inv at sleeps,
      )
