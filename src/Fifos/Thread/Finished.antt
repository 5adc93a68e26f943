-- ===== src/Fifos/Thread/Finished.antt =====
-- When the main thread of FileSystem-v3/thread.c goes on.
use mathlib.Core.Path.{subst, sym}
use file_system_toy_os.Prelude.{
  ℕ, suc, ◌+◌, ◌<◌, ◌≤◌, ◌≡◌, refl, arith, List, [], ◌∷◌, ◌++◌, length, ◌∙◌, inl, inr, ◌⊎◌, true,
  ap,
}
use mathlib.Core.List.{Perm}
use mathlib.Core.List.Perm
use file_system_toy_os.Fifos.Thread.{Threads, Switch, yield, finish}
use file_system_toy_os.Fifos.Thread.Turns.{InTurn}
use file_system_toy_os.Fifos.Thread.Events.{Event, react, run, returns, count_returns, to_thread}
use file_system_toy_os.Fifos.Thread.Steps.{tick-IsTicked, Returned, finish-Returned}

-- After the events `es`, one of the threads `c ∷ xs` has its turn: those that returned and those that
-- are left are the threads there were.
record IsUnderWay (s : Threads) (c : ℕ) (xs : List ℕ) (es : List Event) : Type 0 where
  current : ℕ
  behind : List ℕ
  turn : InTurn (run es s) current behind
  all : Perm (returns es s ++ (current ∷ behind)) (c ∷ xs)
  left : length behind + count_returns es ≡ length xs

run-IsUnderWay :
    (es : List Event) (s : Threads) (c : ℕ) (xs : List ℕ)
    → InTurn s c xs
    → count_returns es ≤ length xs
    → IsUnderWay s c xs es
unfolding run returns react
run-IsUnderWay [] s c xs turn le = record {
  current = c;
  behind = xs;
  turn = turn;
  all = Perm.refl (c ∷ xs);
  left = omega arith;
}
run-IsUnderWay (Event.tick esp ∷ es) s c xs turn le =
    let t = tick-IsTicked s c xs esp turn in
    let rest =
      run-IsUnderWay es (yield s esp).1 t.current t.behind t.turn (omega (arith, le, t.as_many)) in
    record {
      current = rest.current;
      behind = rest.behind;
      turn = rest.turn;
      all = Perm.trans rest.all t.same;
      left = omega (arith, rest.left, t.as_many);
    }
run-IsUnderWay (Event.returned ∷ es) s c [] turn le = absurd (omega arith)
run-IsUnderWay (Event.returned ∷ es) s c (x ∷ xs) turn le =
    let (_, next) = finish-Returned s c (x ∷ xs) turn in
    let rest = run-IsUnderWay es (finish s).1 x xs next (omega (arith, le)) in
    record {
      current = rest.current;
      behind = rest.behind;
      turn = rest.turn;
      all = Perm.cons' turn.current rest.all;
      left = omega (arith, rest.left);
    }

-- What the next event comes to: the main thread goes on, and all threads have returned; or a thread.
abbrev pub Outcome : Threads → ℕ → List ℕ → List Event → Event → Type 0
Outcome s c xs es e =
    ((react e (run es s)).0 ≡ Switch.resume_main)
      × (count_returns (es ++ (e ∷ [])) ≡ suc (length xs))
      × Perm (returns (es ++ (e ∷ [])) s) (c ∷ xs)
    ⊎ ((to_thread (react e (run es s)).0 ≡ true) × (count_returns (es ++ (e ∷ [])) ≤ length xs))

count_returns-snoc :
    (es : List Event) (e : Event)
    → count_returns (es ++ (e ∷ [])) ≡ count_returns es + count_returns (e ∷ [])
count_returns-snoc [] e = omega arith
count_returns-snoc (Event.tick _ ∷ es) e = count_returns-snoc es e
count_returns-snoc (Event.returned ∷ es) e = omega (arith, count_returns-snoc es e)

returns-snoc :
    (es : List Event) (s : Threads)
    → returns (es ++ (Event.returned ∷ [])) s ≡ returns es s ++ ((run es s).current_tid ∷ [])
unfolding returns run react
returns-snoc [] s = refl
returns-snoc (Event.tick esp ∷ es) s = returns-snoc es (yield s esp).1
returns-snoc (Event.returned ∷ es) s = ap (λ l. s.current_tid ∷ l) (returns-snoc es (finish s).1)

-- While the thread c runs and the threads xs wait (InTurn), let the timer interrupt the running
-- thread and threads return to finish in any order es, with no more returns than xs has
-- threads, and with no interrupt from the start of finish to the switch of threads behind it,
-- where the code leaves interrupts enabled. The next event resumes the main thread exactly if
-- it is the return that makes as many returns as there are threads; the threads that have
-- returned are then c and xs, each once. Any other event gives the processor to a thread.
pub resume_main-after :
    (s : Threads) (c : ℕ) (xs : List ℕ) (es : List Event) (e : Event)
    → InTurn s c xs
    → count_returns es ≤ length xs
    → Outcome s c xs es e
unfolding react
resume_main-after s c xs es (Event.tick esp) turn le =
    let h = run-IsUnderWay es s c xs turn le in
    let t = tick-IsTicked (run es s) h.current h.behind esp h.turn in
    inr (t.goes_on, omega (arith, le, count_returns-snoc es (Event.tick esp)))
resume_main-after s c xs es Event.returned turn le =
    let h = run-IsUnderWay es s c xs turn le in
    by_rest h h.behind refl (finish-Returned (run es s) h.current h.behind h.turn)
  where
    counted :
        (h : IsUnderWay s c xs es)
        → h.behind ≡ []
        → count_returns (es ++ (Event.returned ∷ [])) ≡ suc (length xs)
    counted h e =
        let none_left = ap length e in
        omega (arith, count_returns-snoc es Event.returned, h.left, none_left)

    all_returned :
        (h : IsUnderWay s c xs es)
        → h.behind ≡ []
        → Perm (returns (es ++ (Event.returned ∷ [])) s) (c ∷ xs)
    all_returned h e =
        let last : (run es s).current_tid ∷ [] ≡ h.current ∷ h.behind =
          ap (λ t. t ∷ []) h.turn.current ∙ ap (λ l. h.current ∷ l) (sym e) in
        subst (λ l. Perm l (c ∷ xs)) (sym (returns-snoc es s ∙ ap (λ l. returns es s ++ l) last))
          h.all

    waiting :
        (h : IsUnderWay s c xs es) (y : ℕ) (ys : List ℕ) → h.behind ≡ y ∷ ys → 0 < length h.behind
    waiting h y ys e = let n = ap length e in omega (arith, n)

    by_rest :
        (h : IsUnderWay s c xs es) (l : List ℕ)
        → h.behind ≡ l
        → Returned l (finish (run es s))
        → Outcome s c xs es Event.returned
    by_rest h [] e r = inl (r, counted h e, all_returned h e)
    by_rest h (y ∷ ys) e r =
        inr (r.0, omega (arith, count_returns-snoc es Event.returned, h.left, waiting h y ys e))
