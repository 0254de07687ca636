-- ===== src/Supervisor/Lifecycle/Order.antt =====
-- The order in which processes are started and stopped (engine/supervisor/supervisor.go).
use hermi_nas.Prelude.{
  List, Option-cases, String, [], any, ap, arith, inl, inr, length, ltb, map, refl, sym, true, ℕ,
  ◌++◌, ◌+◌, ◌∙◌, ◌∷◌, ◌≡◌, ◌≢◌, ◌≤◌, ◌⊎◌,
}
use mathlib.Core.List.{append-nil, append_assoc}
use hermi_nas.Kernel.Errors.{Error}
use hermi_nas.Supervisor.Lifecycle.{
  mark_stopping, start_error, Registration, Processes, Poll, Outcome, done, aborted, pending,
  await_healthy, start, stop, watch,
}

-- With a poll behind the deadline `awaitHealthy` returns, and it returns nil only after a poll that
-- was healthy.
pub await_healthy_lem :
    (name : String) (timeout since : ℕ) (polls : List Poll)
    → (any (λ p. ltb (since + timeout) p.at) polls ≡ true
        → await_healthy name timeout since polls ≢ pending)
      × (await_healthy name timeout since polls ≡ done → any (λ p. p.healthy) polls ≡ true)
unfolding await_healthy
await_healthy_lem name timeout since [] = (λ h. cc, λ h. cc)
await_healthy_lem name timeout since (p ∷ polls) =
    let (to, from) = await_healthy_lem name timeout since polls in
    (λ h q. ground arith, λ h. ground arith)

abbrev pub names : {F : Type 0} → List (Registration F) → List String
names = map (λ reg. reg.name)

-- What was done to a process.
pub data Note : Type 0 where
  begun : String → Note
  ended : String → Note

abbrev pub reversed {ℓ} : {A : Type ℓ} → List A → List A
reversed [] = []
reversed (x ∷ xs) = reversed xs ++ x ∷ []

module _ {W : Type 0} (P : Processes W) where
  -- The processes, with a note of each call of `Start` and of `Stop`.
  unfoldable pub logged : Processes (W × List Note)
  logged = record {
    start = λ name (w, log). let (e, w') = P.start name w in (e, (w', log ++ begun name ∷ []));
    stop = λ name (w, log). let (e, w') = P.stop name w in (e, (w', log ++ ended name ∷ []));
    polls = λ name (w, log). let (since, polls, w') = P.polls name w in (since, polls, (w', log));
  }

Outcome-cases : (o : Outcome) → (o ≡ done) ⊎ ((e : Error) × (o ≡ aborted e)) ⊎ (o ≡ pending)
Outcome-cases done = inl refl
Outcome-cases (aborted e) = inr (inl (e, refl))
Outcome-cases pending = inr (inr refl)

module _ {F W : Type 0} (P : Processes W) where
  -- `Stop` stops every process, whether others fail or not, in the reverse of the order in which they
  -- were registered, and marks each as stopping.
  pub stop-order :
      (regs : List (Registration F)) (w : W) (log : List Note)
      → ((stop (logged P) regs (w, log)).2.1 ≡ log ++ reversed (map ended (names regs)))
        × ((stop (logged P) regs (w, log)).1 ≡ map mark_stopping regs)
  unfolding stop logged
  stop-order [] w log = (sym (append-nil log), refl)
  stop-order (reg ∷ regs) w log =
      let (order, all) = stop-order regs w log in (rw (order, append_assoc), rw all)

  -- What `Start` has done: a prefix of the processes runs and is watched, at most one more was tried.
  pub record IsPrefix (regs : List (Registration F)) (log : List Note)
      (result : Outcome × List (Registration F) × (W × List Note)) : Type 0 where
    pub pre : List (Registration F)
    pub tried : List (Registration F)
    pub post : List (Registration F)
    pub split : regs ≡ pre ++ tried ++ post
    pub one : length tried ≤ 1
    pub after : result.1 ≡ map watch pre ++ tried ++ post
    pub order : result.2.1 ≡ log ++ map begun (names (pre ++ tried))
    pub whole : result.0 ≡ done → tried ++ post ≡ []

  IsPrefix-next :
      (reg : Registration F) (regs : List (Registration F)) (log : List Note)
      {result : Outcome × List (Registration F) × (W × List Note)}
      → IsPrefix regs (log ++ begun reg.name ∷ []) result
      → IsPrefix (reg ∷ regs) log (result.0, watch reg ∷ result.1, result.2)
  IsPrefix-next reg regs log r = record {
    pre = reg ∷ r.pre;
    tried = r.tried;
    post = r.post;
    split = ap (λ xs. reg ∷ xs) r.split;
    one = r.one;
    after = ap (λ xs. watch reg ∷ xs) r.after;
    order = r.order ∙ append_assoc log (begun reg.name ∷ []) (map begun (names (r.pre ++ r.tried)));
    whole = r.whole;
  }

  -- A process that started and did not become healthy.
  IsPrefix-last :
      (reg : Registration F) (regs : List (Registration F)) (w : W) (log : List Note) (o : Outcome)
      → o ≢ done
      → IsPrefix (reg ∷ regs) log (o, watch reg ∷ regs, (w, log ++ begun reg.name ∷ []))
  IsPrefix-last reg regs w log o h = record {
    pre = reg ∷ [];
    tried = [];
    post = regs;
    split = refl;
    one = omega arith;
    after = refl;
    order = refl;
    whole = λ d. absurd (h d);
  }

  IsPrefix-failed :
      (reg : Registration F) (regs : List (Registration F)) (w : W) (log : List Note) (e : Error)
      → IsPrefix (reg ∷ regs) log (aborted e, reg ∷ regs, (w, log ++ begun reg.name ∷ []))
  IsPrefix-failed reg regs w log e = record {
    pre = [];
    tried = reg ∷ [];
    post = regs;
    split = refl;
    one = omega arith;
    after = refl;
    order = refl;
    whole = λ h. cc;
  }

  -- `Start` starts the processes in the order in which they were registered. Those of a prefix were
  -- started and are watched; at most one more was tried, and failed to start; the others are as
  -- they were. Where `Start` gives no error, all of them were started.
  pub start-IsPrefix :
      (regs : List (Registration F)) (w : W) (log : List Note)
      → IsPrefix regs log (start (logged P) regs (w, log))
  unfolding start logged
  start-IsPrefix [] w log = record {
    pre = [];
    tried = [];
    post = [];
    split = refl;
    one = omega arith;
    after = refl;
    order = sym (append-nil log);
    whole = λ h. refl;
  }
  start-IsPrefix (reg ∷ regs) w log =
      let (e, w1) = P.start reg.name w in
      let (since, polls, w2) = P.polls reg.name w1 in
      let awaited = await_healthy reg.name reg.ready_timeout since polls in
      elim (Option-cases e) [
        | inr (x, q) ↦ rw (start, q) (IsPrefix-failed reg regs w1 log (start_error reg.name x))
        | inl q ↦ elim (Outcome-cases awaited) [
          | inl d ↦
              rw (start, q, d)
                (IsPrefix-next reg regs log (start-IsPrefix regs w2 (log ++ begun reg.name ∷ [])))
          | inr (inl (x, d)) ↦
              rw (start, q, d) (IsPrefix-last reg regs w2 log (aborted x) (λ h. cc))
          | inr (inr d) ↦ rw (start, q, d) (IsPrefix-last reg regs w2 log pending (λ h. cc))
        ]
      ]
