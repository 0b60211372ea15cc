-- ===== src/Agent/Retry.antt =====
-- How often a text is sent to a pane that may not be ready (ipc_type_text_with_retry).
use prettymux.Prelude.{
  ℕ, zero, suc, ◌≤◌, ◌≡◌, refl, sym, ap, ◌⊎◌, inl, inr, subst, Bool, true, false, arith, Bool-cases,
}
use prettymux.Prelude.Int.{ℤ}
use prettymux.Prelude.Text.{Text}
use prettymux.Agent.Tmux.{Request, type_text, Response, done, failed, Server, World}
use prettymux.Agent.Commands.{ask, is_transient, type_answered, type_loop, type_text_with_retry}

-- An error that says that the terminal is not there yet.
abbrev pub Transient : Response → Type 0
Transient (done root) = ⊥
Transient (failed message) = is_transient message ≡ true

-- The last answer: a success for TRUE; for FALSE another error, or one at the last attempt.
abbrev pub Ended : Type 0 → Bool → Response → Type 0
Ended last true (done root) = Unit
Ended last true (failed message) = ⊥
Ended last false (done root) = ⊥
Ended last false (failed message) = (is_transient message ≡ false) ⊎ last

Ended-map : {P Q : Type 0} → (P → Q) → (b : Bool) (a : Response) → Ended P b a → Ended Q b a
Ended-map f true (done root) h = tt
Ended-map f true (failed message) h = absurd h
Ended-map f false (done root) h = absurd h
Ended-map f false (failed message) (inl other) = inl other
Ended-map f false (failed message) (inr last) = inr (f last)

module _ (server : Server) where
  -- The world after a request was sent as many times.
  abbrev pub asks : ℕ → Request → World → World
  asks zero request w = w
  asks (suc n) request w = asks n request (ask server request w).1

  abbrev pub answer_after : ℕ → Request → World → Response
  answer_after n request w = server (asks n request w).log request

  -- The first answers are errors that say so.
  abbrev pub Waits : ℕ → Request → World → Type 0
  Waits zero request w = Unit
  Waits (suc n) request w =
      Transient (server w.log request) × Waits n request (ask server request w).1

  abbrev pub Outcome : ℕ → Request → World → Bool × World → Type 0
  Outcome bound request w result =
      (n : ℕ) × (n ≤ bound)
      × (result.1 ≡ asks (suc n) request w)
      × Waits n request w
      × Ended (n ≡ bound) result.0 (answer_after n request w)

  -- What the attempts that are left give.
  abbrev Rest : ℕ → Request → World → Type 0
  Rest zero request w = Unit
  Rest (suc left) request w = Outcome left request w (type_loop server (suc left) request w)

  Ended-at :
      (left : ℕ) (request : Request) (w : World) (message : Text)
      → server w.log request ≡ failed message
      → (is_transient message ≡ false) ⊎ (0 ≡ left)
      → Ended (0 ≡ left) false (server w.log request)
  Ended-at left request w message e h = subst (λ a. Ended (0 ≡ left) false a) (sym e) h

  answered-Outcome :
      (left : ℕ) (request : Request) (w : World) (answer : Response)
      → server w.log request ≡ answer
      → Rest left request (ask server request w).1
      → Outcome left request w (
          type_answered answer
            (ask server request w).1
            (type_loop server left request (ask server request w).1))
  answered-Outcome left request w (done root) e rest =
      (0, ground arith, refl, tt, subst (λ a. Ended (0 ≡ left) true a) (sym e) tt)
  answered-Outcome zero request w (failed message) e rest =
      elim (Bool-cases (is_transient message)) [
        | inl wait ↦ rw wait (0, ground arith, refl, tt, Ended-at 0 request w message e (inr refl))
        | inr stop ↦ rw stop (0, ground arith, refl, tt, Ended-at 0 request w message e (inl stop))
      ]
  answered-Outcome (suc left) request w (failed message) e rest =
      elim (Bool-cases (is_transient message)) [
        | inl wait ↦
            let (n, small, world, waits, ended) = rest in
            rw wait (
              suc n,
              ground arith,
              world,
              (subst (λ a. Transient a) (sym e) wait, waits),
              Ended-map (λ (h : n ≡ left). ap suc h)
                  (type_loop server (suc left) request (ask server request w).1).0
                  (answer_after n request (ask server request w).1) ended,
            )
        | inr stop ↦
            rw stop (0, ground arith, refl, tt, Ended-at (suc left) request w message e (inl stop))
      ]

  loop-Outcome :
      (left : ℕ) (request : Request) (w : World)
      → Outcome left request w (type_loop server (suc left) request w)
  loop-Outcome zero request w = answered-Outcome zero request w (server w.log request) refl tt
  loop-Outcome (suc left) request w =
      answered-Outcome (suc left) request w (server w.log request) refl
        (loop-Outcome left request (ask server request w).1)

  -- Sending a text with retries returns. It sends the text once more after each error that says that the
  -- terminal is not there yet, at most 20 times; it returns TRUE when the last answer is a success, and
  -- FALSE when the last answer is another error, or when the 20th is an error.
  pub type_text_with_retry-Outcome :
      (workspace : ℤ) (pane text : Text) (w : World)
      → Outcome 19
          (type_text workspace pane text)
          w
          (type_text_with_retry server workspace pane text w)
  unfolding type_text_with_retry
  type_text_with_retry-Outcome workspace pane text w =
      loop-Outcome 19 (type_text workspace pane text) w
