-- ===== src/Outbox/Leases.antt =====
-- What the moves of Outbox/Phases say of a job over a history of calls: its lease is exclusive, its
-- end is final, and it is claimed no more often than it may be.
use kelin_server.Prelude.{
  ℕ, ◌≤◌, ◌<◌, String, List, [], ◌∷◌, Option, none, some, ◌≡◌, ◌≢◌, refl, sym, ap, subst, inl, inr,
  ◌==◌, In, In-Along, count-Along, All-Along, All, arith,
}
use kelin_server.Outbox.Store.{OutboxEvent, Session, has_id}
use kelin_server.Outbox.Phases.{
  Phase, waiting, leased, finished, abandoned, phase_of, Move, Moves, start, extend, finish,
  put_off, give_up, hand_back, lapse, lapse_for_good,
}
use kelin_server.Outbox.Picking.{HasUniqueIds}
use kelin_server.Outbox.Calls.{Call, call_time, call_worker, run_call, run_calls}
use kelin_server.Outbox.TableMoves.{run_call-Queue}

-- A job that no other worker may move until the end of the lease.
abbrev pub IsKeptFrom : Option String → ℕ → Phase → Type 0
IsKeptFrom who now (waiting available attempts) = ⊥
IsKeptFrom who now (leased holder none attempts) = ⊥
IsKeptFrom who now (leased holder (some until) attempts) = (who ≢ holder) × (now ≤ until)
IsKeptFrom who now (finished attempts) = Unit
IsKeptFrom who now (abandoned attempts) = Unit

Move-IsKeptFrom :
    {max now : ℕ} {who : Option String} {p q : Phase}
    → Move max now who p q
    → IsKeptFrom who now p
    → ⊥
Move-IsKeptFrom (start worker available attempts lease due) h = h
Move-IsKeptFrom (extend worker until attempts lease running) h = h.0 refl
Move-IsKeptFrom (finish worker none attempts valid) h = h
Move-IsKeptFrom (finish worker (some until) attempts valid) h = h.0 refl
Move-IsKeptFrom (put_off worker none attempts valid more) h = h
Move-IsKeptFrom (put_off worker (some until) attempts valid more) h = h.0 refl
Move-IsKeptFrom (give_up worker none attempts valid last) h = h
Move-IsKeptFrom (give_up worker (some until) attempts valid last) h = h.0 refl
Move-IsKeptFrom (hand_back worker none attempts available valid) h = h
Move-IsKeptFrom (hand_back worker (some until) attempts available valid) h = h.0 refl
Move-IsKeptFrom (lapse holder until attempts over more) h = omega (arith, h.1)
Move-IsKeptFrom (lapse_for_good holder until attempts over last) h = omega (arith, h.1)

Moves-IsKeptFrom :
    (now : ℕ) (who : Option String) (row row' : OutboxEvent)
    → Moves now who row row'
    → IsKeptFrom who now (phase_of row)
    → row' ≡ row
Moves-IsKeptFrom now who row row' (inl e) h = e
Moves-IsKeptFrom now who row row' (inr (move, same, max)) h = absurd (Move-IsKeptFrom move h)

Moves-id :
    (now : ℕ) (who : Option String) (job : ℕ) {row row' : OutboxEvent}
    → Moves now who row row'
    → has_id job row' ≡ has_id job row
Moves-id now who job (inl e) = ap (has_id job) e
Moves-id now who job (inr (move, same, max)) = ap (λ i. i == job) same

-- Every call keeps the ids of the rows.
pub run_call-HasUniqueIds :
    (call : Call) (s : Session) → HasUniqueIds s.events → HasUniqueIds (run_call call s).events
run_call-HasUniqueIds call s unique job =
    rw
      (count-Along (has_id job) (run_call-Queue call s unique)
        (λ x y r. Moves-id (call_time call) (call_worker call) job r))
      (unique job)

pub run_calls-HasUniqueIds :
    (calls : List Call) (s : Session)
    → HasUniqueIds s.events
    → HasUniqueIds (run_calls calls s).events
unfolding run_calls
run_calls-HasUniqueIds [] s unique = unique
run_calls-HasUniqueIds (call ∷ calls) s unique =
    run_calls-HasUniqueIds calls (run_call call s) (run_call-HasUniqueIds call s unique)

-- Over any history of calls in which no call may move it, a row stays in the table as it is: a row that is leased, where every other call is made until the end of the lease and by another worker, and a row that is done or dead, where nothing is asked of the calls. Ids are unique.
pub run_calls_kept :
    (calls : List Call) (s : Session) (row : OutboxEvent)
    → HasUniqueIds s.events
    → In row s.events
    → All (λ call. IsKeptFrom (call_worker call) (call_time call) (phase_of row)) calls
    → In row (run_calls calls s).events
unfolding run_calls
run_calls_kept [] s row unique m kept = m
run_calls_kept (call ∷ calls) s row unique m (h, kept) =
    let (row', m', moves) = In-Along m (run_call-Queue call s unique) in
    run_calls_kept calls (run_call call s) row (run_call-HasUniqueIds call s unique)
      (subst (λ r. In r (run_call call s).events)
        (Moves-IsKeptFrom (call_time call) (call_worker call) row row' moves h) m')
      kept

-- How often a job has been claimed, by its phase, where it may be claimed `max` times.
abbrev pub IsCounted : ℕ → Phase → Type 0
IsCounted max (waiting available attempts) = attempts < max
IsCounted max (leased holder until attempts) = (1 ≤ attempts) × (attempts ≤ max)
IsCounted max (finished attempts) = (1 ≤ attempts) × (attempts ≤ max)
IsCounted max (abandoned attempts) = attempts ≡ max

Move-IsCounted :
    {max now : ℕ} {who : Option String} {p q : Phase}
    → Move max now who p q
    → IsCounted max p
    → IsCounted max q
Move-IsCounted (start worker available attempts lease due) h = (omega (arith, h), omega (arith, h))
Move-IsCounted (extend worker until attempts lease running) h = h
Move-IsCounted (finish worker until attempts valid) h = h
Move-IsCounted (put_off worker until attempts valid more) h = more
Move-IsCounted (give_up worker until attempts valid last) h = omega (arith, h.1)
Move-IsCounted (hand_back worker until attempts available valid) h = omega (arith, h.0, h.1)
Move-IsCounted (lapse holder until attempts over more) h = more
Move-IsCounted (lapse_for_good holder until attempts over last) h = omega (arith, h.1)

abbrev pub IsCountedRow : OutboxEvent → Type 0
IsCountedRow row = IsCounted row.max_attempts (phase_of row)

pub Moves-IsCounted :
    (now : ℕ) (who : Option String) {row row' : OutboxEvent}
    → Moves now who row row'
    → IsCountedRow row
    → IsCountedRow row'
Moves-IsCounted now who (inl e) h = subst IsCountedRow (sym e) h
Moves-IsCounted now who {row} {row'} (inr (move, same, max)) h =
    subst (λ n. IsCounted n (phase_of row')) (sym max) (Move-IsCounted move h)

-- Over any history of calls, every job keeps within its attempts: one that waits has attempts left, one that is leased or done has been claimed at least once and at most `max_attempts` times, less the claims that were handed back, and one is dead only after `max_attempts` of them. Ids are unique.
pub run_calls-IsCounted :
    (calls : List Call) (s : Session)
    → HasUniqueIds s.events
    → All IsCountedRow s.events
    → All IsCountedRow (run_calls calls s).events
unfolding run_calls
run_calls-IsCounted [] s unique h = h
run_calls-IsCounted (call ∷ calls) s unique h =
    run_calls-IsCounted calls (run_call call s) (run_call-HasUniqueIds call s unique) (
      All-Along IsCountedRow (run_call-Queue call s unique)
        (λ x y r. Moves-IsCounted (call_time call) (call_worker call) r) h)
