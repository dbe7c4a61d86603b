-- ===== src/Fanout/Released.antt =====
-- A connection releases its handle at most once, whatever the order of its steps.
use deepfeeder.Base.{
  ◌+◌, String, ◌≡◌, refl, subst, ap₂, ◌∙◌, ◌⊎◌, inl, inr, Bool, true, false, Option, none, some,
  List, [], ◌∷◌, ◌++◌, Any, Any-append_left, Any-append_right, Bool-cases, if◌then◌else◌,
}
use deepfeeder.MarketFeeder.{Feeder}
use deepfeeder.Fanout.Socket.{
  Job, send, release, Connection, Raised, is_exception, Step, emits, runs, receives, released,
  do_unsubscribe, send_event, emit_event_sync, run_job, leave, receive, step, after_steps, attached,
}

abbrev pub IsRelease : {E : Type 0} → Job E → Type 0
IsRelease (send env) = ⊥
IsRelease release = Unit

module _ {F E : Type 0} (handle : String) (f : Feeder F) where
  -- The handle is released when the flag says so, and not before; it was released, or will be by a job,
  -- once a send has failed, and it was released once the handler has left.
  pub record IsTidy (c : Connection F E) : Type 0 where
    pub same_handle : c.handle ≡ some handle
    pub holds : c.feeder ≡ (if c.unsub_done then released (some handle) f else f)
    pub failed : c.closed ≡ true → (c.unsub_done ≡ true) ⊎ Any IsRelease c.jobs
    pub left : c.serving ≡ false → c.unsub_done ≡ true

  do_unsubscribe-done : (c : Connection F E) → (do_unsubscribe c).unsub_done ≡ true
  unfolding do_unsubscribe
  do_unsubscribe-done c = elim (Bool-cases c.unsub_done) [
    | inl done ↦ rw done refl
    | inr first ↦ rw first refl
  ]

  do_unsubscribe-handle : (c : Connection F E) → (do_unsubscribe c).handle ≡ c.handle
  unfolding do_unsubscribe
  do_unsubscribe-handle c = elim (Bool-cases c.unsub_done) [
    | inl done ↦ rw done refl
    | inr first ↦ rw first refl
  ]

  do_unsubscribe-feeder :
      (c : Connection F E)
      → c.handle ≡ some handle
      → c.feeder ≡ (if c.unsub_done then released (some handle) f else f)
      → (do_unsubscribe c).feeder ≡ released (some handle) f
  unfolding do_unsubscribe
  do_unsubscribe-feeder c same holds = elim (Bool-cases c.unsub_done) [
    | inl done ↦ rw done (holds ∙ rw done refl)
    | inr first ↦ rw first (ap₂ released same (holds ∙ rw first refl))
  ]

  do_unsubscribe-IsTidy :
      (c : Connection F E)
      → c.handle ≡ some handle
      → c.feeder ≡ (if c.unsub_done then released (some handle) f else f)
      → IsTidy (do_unsubscribe c)
  do_unsubscribe-IsTidy c same holds = record {
    same_handle = do_unsubscribe-handle c ∙ same;
    holds = do_unsubscribe-feeder c same holds ∙ rw (do_unsubscribe-done c) refl;
    failed = λ e. inl (do_unsubscribe-done c);
    left = λ e. do_unsubscribe-done c;
  }

  leave-IsTidy : (c : Connection F E) → IsTidy c → IsTidy (leave c)
  unfolding leave
  leave-IsTidy c tidy =
      let done = do_unsubscribe-IsTidy c tidy.same_handle tidy.holds in
      record {
        same_handle = done.same_handle;
        holds = done.holds;
        failed = done.failed;
        left = λ e. do_unsubscribe-done c;
      }

  if-IsTidy :
      (b : Bool) (x y : Connection F E)
      → (b ≡ true → IsTidy x)
      → (b ≡ false → IsTidy y)
      → IsTidy (if b then x else y)
  if-IsTidy true x y hx hy = hx refl
  if-IsTidy false x y hx hy = hy refl

  receive-IsTidy :
      (raised : Option Raised) (c : Connection F E) → IsTidy c → IsTidy (receive raised c)
  unfolding receive
  receive-IsTidy none c tidy = tidy
  receive-IsTidy (some raised) c tidy =
      if-IsTidy (is_exception raised) c (leave c) (λ e. tidy) (λ e. leave-IsTidy c tidy)

  add_job-IsTidy :
      (j : Job E) (c : Connection F E) → IsTidy c → IsTidy (record c { jobs = c.jobs ++ j ∷ [] })
  add_job-IsTidy j c tidy = record {
    same_handle = tidy.same_handle;
    holds = tidy.holds;
    failed = λ e. elim (tidy.failed e) [
      | inl done ↦ inl done
      | inr waits ↦ inr (Any-append_left IsRelease c.jobs (j ∷ []) waits)
    ];
    left = tidy.left;
  }

  emit-IsTidy : (env : E) (c : Connection F E) → IsTidy c → IsTidy (emit_event_sync env c)
  unfolding emit_event_sync
  emit-IsTidy env c tidy =
      if-IsTidy c.closed c _ (λ e. tidy) (λ e. add_job-IsTidy (send env) c tidy)

  send-IsTidy :
      (env : E) (sends : Bool) (c : Connection F E) → IsTidy c → IsTidy (send_event env sends c)
  unfolding send_event
  send-IsTidy env sends c tidy =
      if-IsTidy c.closed c _ (λ e. tidy)
        (λ e. if-IsTidy sends _ _ (λ e'. sent_one) (λ e'. failed_one))
    where
      sent_one : IsTidy (record c { sent = c.sent ++ env ∷ [] })
      sent_one = record {
        same_handle = tidy.same_handle;
        holds = tidy.holds;
        failed = tidy.failed;
        left = tidy.left;
      }

      failed_one : IsTidy (record c {
        send_err_count = c.send_err_count + 1;
        closed = true;
        jobs = c.jobs ++ release ∷ [];
      })
      failed_one = record {
        same_handle = tidy.same_handle;
        holds = tidy.holds;
        failed = λ e. inr (Any-append_right IsRelease c.jobs (release ∷ []) (inl tt));
        left = tidy.left;
      }

  without_send :
      (env : E) (js : List (Job E)) (c : Connection F E)
      → c.jobs ≡ send env ∷ js
      → IsTidy c
      → IsTidy (record c { jobs = js })
  without_send env js c e tidy = record {
    same_handle = tidy.same_handle;
    holds = tidy.holds;
    failed = λ shut. elim (tidy.failed shut) [
      | inl done ↦ inl done
      | inr waits ↦ elim (subst (Any IsRelease) e waits) [
        | inl here ↦ elim here [ ]
        | inr later ↦ inr later
      ]
    ];
    left = tidy.left;
  }

  run_job-IsTidy : (sends : Bool) (c : Connection F E) → IsTidy c → IsTidy (run_job sends c)
  unfolding run_job
  run_job-IsTidy sends c tidy = first c.jobs refl
    where
      first :
          (js : List (Job E))
          → c.jobs ≡ js
          → IsTidy (elim js [
            | [] ↦ c
            | j ∷ js ↦ elim j [
              | send env ↦ send_event env sends (record c { jobs = js })
              | release ↦ do_unsubscribe (record c { jobs = js })
            ]
          ])
      first [] e = tidy
      first (send env ∷ js) e =
          send-IsTidy env sends (record c { jobs = js }) (without_send env js c e tidy)
      first (release ∷ js) e =
          do_unsubscribe-IsTidy (record c { jobs = js }) tidy.same_handle tidy.holds

  step-IsTidy : (s : Step E) (c : Connection F E) → IsTidy c → IsTidy (step s c)
  unfolding step
  step-IsTidy (emits env) c tidy = emit-IsTidy env c tidy
  step-IsTidy (runs sends) c tidy = run_job-IsTidy sends c tidy
  step-IsTidy (receives raised) c tidy =
      if-IsTidy c.serving (receive raised c) c (λ e. receive-IsTidy raised c tidy) (λ e. tidy)

  steps-IsTidy : (ss : List (Step E)) (c : Connection F E) → IsTidy c → IsTidy (after_steps ss c)
  unfolding after_steps
  steps-IsTidy [] c tidy = tidy
  steps-IsTidy (s ∷ ss) c tidy = steps-IsTidy ss (step s c) (step-IsTidy s c tidy)

  -- In whatever order sends, failures, the client's going and a cancellation come, the feeder is as it was or with the handle released once; it was released, or a job is there to do it, after a failed send, and it was released once the handler has left its loop.
  pub after_steps-IsTidy :
      (ss : List (Step E)) (envs : List E) → IsTidy (after_steps ss (attached handle envs f))
  unfolding attached
  after_steps-IsTidy ss envs =
      steps-IsTidy ss (attached handle envs f)
        (record { same_handle = refl; holds = refl; failed = λ e. cc; left = λ e. cc })
