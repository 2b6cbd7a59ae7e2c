-- ===== src/RawMutex/Invariant.antt =====
-- src/mutex/raw_mutex.rs, while no thread calls `try_lock`: one thread owns the lock exactly when
-- LOCKED_BIT is set, and a parked thread is never forgotten.
use co_queue.Base.{
  ℕ, ◌+◌, ◌≤◌, ◌<◌, ◌≡◌, ◌≢◌, refl, sym, ap, ◌∙◌, Bool, true, false, none, some, inl, inr,
  Bool-cases, if◌then◌else◌, update, update_ne, arith,
}
use co_queue.Base.Tally.{tally, tally-update, weight-le-tally, tally-find, tally-zero}
use co_queue.RawMutex.{
  Word, free, locked_bit, word, with_locked, with_parked, Token, handoff, callback, ParkingLot,
}
use co_queue.RawMutex.System
use co_queue.RawMutex.System.{
  Pc, idle, reload, looped, parking, sleeping, woken, trying, marking, holding, leaving, System,
  init, go, Step, Reach, start, later,
}

-- A thread owns the lock from the exchange that takes it, or the token that hands it over, to the
-- write that gives it back.
abbrev pub owns : Pc → ℕ
owns holding = 1
owns leaving = 1
owns (woken handoff) = 1
owns _ = 0

abbrev pub asleep : Pc → Bool
asleep sleeping = true
asleep _ = false

abbrev pub busy : Pc → Bool
busy idle = false
busy _ = true

-- In `lock`, `try_lock` or `unlock`, or between them, and not asleep.
abbrev pub active : Pc → Bool
active idle = false
active sleeping = false
active (marking _) = false
active _ = true

abbrev pub in_try : Pc → Bool
in_try (trying _) = true
in_try _ = false

abbrev pub lock_count : Word → ℕ
lock_count w = if w.locked then 1 else 0

lock_count-le : (w : Word) → lock_count w ≤ 1
lock_count-le w = ground arith

pub sleeping_of : (p : Pc) → asleep p ≡ true → p ≡ sleeping
sleeping_of p h = ground arith

-- What the callback of `unlock_slow` leaves when a thread is woken: the lock is free, or it is
-- handed over; and PARKED_BIT stays set while there are more threads.
callback_lem :
    (more fair : Bool) (w : Word) (r : Word × Token)
    → callback (record { unparked_threads = 1; have_more_threads = more; be_fair = fair }) w ≡ r
    → w.locked ≡ true
    → (owns (woken r.1) ≡ lock_count r.0) × (more ≡ true → w.parked ≡ true → r.0.parked ≡ true)
unfolding callback
callback_lem false false w r e l = rw (← e) (refl, λ m. cc)
callback_lem false true w r e l = rw (← e) (refl, λ m. cc)
callback_lem true false w r e l = rw (← e) (refl, λ m p. refl)
callback_lem true true w r e l = rw (← e) (ground arith, λ m p. p)

module _ (lot : ParkingLot) where
  open lot use {Lot, empty, park, unpark_one, waits}

  pub record Inv (n : ℕ) (s : System lot) : Type 0 where
    pub owned : tally owns n s.pc ≡ lock_count s.state
    pub queued : (t : ℕ) → waits s.queue t ≡ asleep (s.pc t)
    pub inside : (t : ℕ) → busy (s.pc t) ≡ true → t < n
    pub flagged : (t : ℕ) → asleep (s.pc t) ≡ true → s.state.parked ≡ true
    pub live : (t : ℕ) → asleep (s.pc t) ≡ true → (j : ℕ) × (active (s.pc j) ≡ true)
    pub no_try : (t : ℕ) → in_try (s.pc t) ≡ false

  Inv-init : (n : ℕ) → Inv n (init lot)
  Inv-init n = record {
    owned = tally-zero owns n idle refl;
    queued = λ t. lot.waits-empty t;
    inside = λ t h. cc;
    flagged = λ t h. cc;
    live = λ t h. cc;
    no_try = λ t. refl;
  }

  -- A thread that is awake moves, and stays awake.
  Inv-go :
      {n : ℕ} {s : System lot} (w : Word) (i : ℕ) {p : Pc} (p' : Pc)
      → Inv n s
      → i < n
      → s.pc i ≡ p
      → (asleep p ≡ false) × (asleep p' ≡ false) × (in_try p' ≡ false)
      → owns p' + lock_count s.state ≡ owns p + lock_count w
      → (s.state.parked ≡ true → (w.parked ≡ true) × (active p' ≡ true))
      → Inv n (go lot s w i p')
  Inv-go {n} {s} w i {p} p' inv lt at awake count flag = record {
    owned = omega (arith, tally-update owns n s.pc i p' lt, inv.owned, ap owns at, count);
    queued = λ t. ground (arith, inv.queued t, inv.queued i, at, awake);
    inside = λ t h. ground (arith, inv.inside t);
    flagged = λ t h. ground (arith, inv.flagged t, flag);
    live = λ t h. (i, ground (arith, inv.flagged t, flag));
    no_try = λ t. ground (arith, inv.no_try t);
  }

  -- A thread that takes no part in the lock moves, and may set PARKED_BIT.
  Inv-aside :
      {n : ℕ} {s : System lot} (w : Word) (i : ℕ) {p : Pc} (p' : Pc)
      → Inv n s
      → i < n
      → s.pc i ≡ p
      → (active p ≡ false) × (asleep p ≡ false) × (owns p ≡ 0)
      → (asleep p' ≡ false) × (in_try p' ≡ false) × (owns p' ≡ 0)
      → (w.locked ≡ s.state.locked) × (s.state.parked ≡ true → w.parked ≡ true)
      → Inv n (go lot s w i p')
  Inv-aside {n} {s} w i {p} p' inv lt at before after same = record {
    owned = omega (
      arith,
      tally-update owns n s.pc i p' lt,
      inv.owned,
      ap owns at,
      before.2,
      after.2,
      ap (λ b. lock_count (word b true)) same.0,
    );
    queued = λ t. ground (arith, inv.queued t, inv.queued i, at, before, after);
    inside = λ t h. ground (arith, inv.inside t);
    flagged = λ t h. same.1 (inv.flagged t (ground (arith, after)));
    live = λ t h.
        let (j, awake) = inv.live t (ground (arith, after)) in
        let apart : i ≢ j = λ e. ground (arith, at, before, awake, ap s.pc e) in
        (j, rw (update_ne s.pc i p' j apart) awake);
    no_try = λ t. ground (arith, inv.no_try t, after);
  }

  -- A thread goes to sleep while the word says that the lock is owned and that there are sleepers.
  Inv-park :
      {n : ℕ} {s : System lot} (i : ℕ)
      → Inv n s
      → i < n
      → s.pc i ≡ parking
      → s.state ≡ word true true
      → Inv n (record s { queue = park i s.queue; pc = update s.pc i sleeping })
  Inv-park {n} {s} i inv lt at full =
      let (j, owner, below) = tally-find owns n s.pc (ground (arith, inv.owned)) in
      record {
        owned = omega (arith, tally-update owns n s.pc i sleeping lt, inv.owned, ap owns at);
        queued = λ t. lot.waits-park i s.queue t ∙ ground (arith, inv.queued t);
        inside = λ t h. ground (arith, inv.inside t);
        flagged = λ t h. rw full;
        live = λ t h. (j, ground (arith, owner));
        no_try = λ t. ground (arith, inv.no_try t);
      }

  -- `unlock_slow` finds no thread in the queue.
  Inv-wakes_none :
      {n : ℕ} {s : System lot} (i : ℕ)
      → Inv n s
      → i < n
      → s.pc i ≡ leaving
      → unpark_one s.queue ≡ none
      → Inv n (go lot s free i idle)
  Inv-wakes_none {n} {s} i inv lt at nobody =
      let no_sleeper = λ (t : ℕ). sym (inv.queued t) ∙ lot.unpark-none s.queue nobody t in
      let held = weight-le-tally owns n s.pc i lt in
      record {
        owned = omega (
          arith,
          tally-update owns n s.pc i idle lt,
          inv.owned,
          ap owns at,
          lock_count-le s.state,
        );
        queued = λ t. ground (arith, inv.queued t, at);
        inside = λ t h. ground (arith, inv.inside t);
        flagged = λ t h. ground (arith, no_sleeper t);
        live = λ t h. (i, ground (arith, no_sleeper t));
        no_try = λ t. ground (arith, inv.no_try t);
      }

  -- A thread is taken out of the queue, with its token, and the owner leaves.
  Inv-wakes :
      {n : ℕ} {s : System lot} (i t : ℕ) (q : Lot) (more : Bool) (w : Word) (tok : Token)
      → Inv n s
      → i < n
      → s.pc i ≡ leaving
      → unpark_one s.queue ≡ some (t, q, more)
      → owns (woken tok) ≡ lock_count w
      → (more ≡ true → s.state.parked ≡ true → w.parked ≡ true)
      → Inv n (record { state = w; queue = q; pc = update (update s.pc t (woken tok)) i idle })
  Inv-wakes {n} {s} i t q more w tok inv lt at found count flag =
      let slept : s.pc t ≡ sleeping =
        sleeping_of (s.pc t) (sym (inv.queued t) ∙ lot.unpark-waits s.queue t q more found) in
      let apart : t ≢ i = λ e. cc (ap s.pc e) in
      let below : t < n = inv.inside t (rw slept) in
      let first = tally-update owns n s.pc t (woken tok) below in
      let second = tally-update owns n (update s.pc t (woken tok)) i idle lt in
      record {
        owned = omega (
          arith,
          first,
          second,
          inv.owned,
          ap owns slept,
          ap owns at,
          ap owns (update_ne s.pc t (woken tok) i apart),
          lock_count-le s.state,
          count,
          weight-le-tally owns n s.pc i lt,
        );
        queued = λ u. lot.unpark-rest s.queue t q more found u ∙ ground (arith, inv.queued u, at);
        inside = λ u h. ground (arith, inv.inside u, below);
        flagged = λ u h. elim (Bool-cases more) [
          | inl more_left ↦ flag more_left (inv.flagged u (ground arith))
          | inr last_one ↦ ground (
            arith,
            lot.unpark-rest s.queue t q more found u,
            lot.unpark-last s.queue t q (found ∙ ap (λ b. some (t, q, b)) last_one) u,
            inv.queued u,
          )
        ];
        live = λ u h. (t, ground arith);
        no_try = λ u. ground (arith, inv.no_try u);
      }

  -- Every access keeps the invariant, if no thread calls `try_lock`.
  Step-Inv : {n i : ℕ} {s t : System lot} → Step lot false n s i t → i < n → Inv n s → Inv n t
  unfolding callback
  Step-Inv {i = i} {s = s} (System.lock_fast at e) lt inv =
      Inv-go locked_bit i holding inv lt at (refl, refl, refl) (ground arith) (λ f. ground arith)
  Step-Inv {i = i} {s = s} (System.lock_misses at) lt inv =
      Inv-go s.state i reload inv lt at (refl, refl, refl) (ground arith) (λ f. ground arith)
  Step-Inv {i = i} {s = s} (System.loads at) lt inv =
      Inv-go s.state i (looped s.state) inv lt at (refl, refl, refl) (ground arith)
        (λ f. ground arith)
  Step-Inv {i = i} {s = s} (System.grabs w at l e) lt inv =
      Inv-go (with_locked w) i holding inv lt at (refl, refl, refl) (ground arith)
        (λ f. ground arith)
  Step-Inv {i = i} {s = s} (System.grab_fails w at l) lt inv =
      Inv-go s.state i (looped s.state) inv lt at (refl, refl, refl) (ground arith)
        (λ f. ground arith)
  Step-Inv {i = i} {s = s} (System.spins w at l p) lt inv =
      Inv-go s.state i reload inv lt at (refl, refl, refl) (ground arith) (λ f. ground arith)
  Step-Inv {i = i} {s = s} (System.flags w at l p e) lt inv =
      Inv-go (with_parked w) i parking inv lt at (refl, refl, refl) (ground arith)
        (λ f. ground arith)
  Step-Inv {i = i} {s = s} (System.flag_fails w at l p) lt inv =
      Inv-go s.state i (looped s.state) inv lt at (refl, refl, refl) (ground arith)
        (λ f. ground arith)
  Step-Inv {i = i} {s = s} (System.was_flagged w at l p) lt inv =
      Inv-go s.state i parking inv lt at (refl, refl, refl) (ground arith) (λ f. ground arith)
  Step-Inv {i = i} {s = s} (System.invalid at ne) lt inv =
      Inv-go s.state i reload inv lt at (refl, refl, refl) (ground arith) (λ f. ground arith)
  Step-Inv {i = i} {s = s} (System.handed at) lt inv =
      Inv-go s.state i holding inv lt at (refl, refl, refl) (ground arith) (λ f. ground arith)
  Step-Inv {i = i} {s = s} (System.retries at) lt inv =
      Inv-go s.state i reload inv lt at (refl, refl, refl) (ground arith) (λ f. ground arith)
  Step-Inv {i = i} {s = s} (System.unlock_fast at e) lt inv =
      Inv-go free i idle inv lt at (refl, refl, refl) (ground arith) (λ f. ground arith)
  Step-Inv {i = i} {s = s} (System.unlock_misses at ne) lt inv =
      Inv-go s.state i leaving inv lt at (refl, refl, refl) (ground arith) (λ f. ground arith)
  Step-Inv {i = i} {s = s} (System.marks_load at) lt inv =
      Inv-aside s.state i (marking s.state) inv lt at (refl, refl, refl) (refl, refl, refl)
        (refl, λ f. f)
  Step-Inv {i = i} {s = s} (System.marks_none w at l) lt inv =
      Inv-aside s.state i idle inv lt at (refl, refl, refl) (refl, refl, refl) (refl, λ f. f)
  Step-Inv {i = i} {s = s} (System.marks w at l e) lt inv =
      Inv-aside (with_parked w) i idle inv lt at (refl, refl, refl) (refl, refl, refl)
        (ap (λ v. v.locked) (sym e), λ f. refl)
  Step-Inv {i = i} {s = s} (System.mark_fails w at l) lt inv =
      Inv-aside s.state i (marking s.state) inv lt at (refl, refl, refl) (refl, refl, refl)
        (refl, λ f. f)
  Step-Inv {i = i} (System.parks at e) lt inv = Inv-park i inv lt at e
  Step-Inv {i = i} (System.wakes_none at nobody) lt inv = Inv-wakes_none i inv lt at nobody
  Step-Inv {n} {i} {s} (System.wakes t q more fair at found r e) lt inv =
      let owner = weight-le-tally owns n s.pc i lt in
      let left = callback_lem more fair s.state r e (ground (arith, inv.owned, owner, at)) in
      Inv-wakes i t q more r.0 r.1 inv lt at found left.0 left.1
  Step-Inv {i = i} (System.tries_load e at) lt inv = cc
  Step-Inv {i = i} (System.tries_busy w at l) lt inv = cc (inv.no_try i, ap in_try at)
  Step-Inv {i = i} (System.tries_win w at l e) lt inv = cc (inv.no_try i, ap in_try at)
  Step-Inv {i = i} (System.tries_fail w at l) lt inv = cc (inv.no_try i, ap in_try at)

  pub Reach-Inv : {n : ℕ} {s : System lot} → Reach lot false n s → Inv n s
  Reach-Inv {n} start = Inv-init n
  Reach-Inv (later r i lt st) = Step-Inv st lt (Reach-Inv r)
