-- ===== src/Agent/Split.antt =====
-- One split of the leader's pane in the layout main-vertical (tmux_split_window).
use prettymux.Prelude.{
  ℕ, zero, suc, ◌≡◌, refl, sym, ap, ap₂, ◌∙◌, subst, Bool, true, false, Option, none, some, List,
  [], ◌∷◌, if◌then◌else◌, Bool-cases, inl, inr,
}
use prettymux.Prelude.Int.{ℤ}
use prettymux.Prelude.Text.{Text, is_empty, text_eq_refl}
use prettymux.Agent.Tmux.{
  Request, pane_split, type_text, Response, done, failed, Exchange, Server, World, TmuxEnv,
  split_args, save_state, shell_command_text,
}
use prettymux.Agent.Commands.{
  no_args, placed, ask, type_answered, type_loop, type_text_with_retry, type_command, split_done,
  split_answered, split_from, split_window, is_transient,
}
use prettymux.Agent.Column.{
  splits, pane_of, NamesPanes, next_pane, next_direction, main_state, SplitsLeader, newest, Named,
}

placed-pane :
    (workspace : ℤ) (leader : Text) (l : List Exchange)
    → Named l
    → placed (main_state workspace leader (newest l)) leader true
      ≡ (next_pane leader l, next_direction l)
placed-pane workspace leader [] h = refl
placed-pane workspace leader (e ∷ older) h = rw (text_eq_refl leader, h) refl

else_branch : (b : Bool) (x y : ℕ × World) → b ≡ false → (if b then x else y) ≡ y
else_branch b x y h = rw h refl

-- What holds between two of the commands.
abbrev pub Keeps : ℤ → Text → World → Type 0
Keeps workspace leader w =
    (w.state_file ≡ some (main_state workspace leader (newest (splits w.log))))
    × (w.is_writable ≡ true)
    × Named (splits w.log)

-- The world after a split that was answered with a pane.
abbrev pub HasSplit : ℤ → Text → World → ℕ × World → Type 0
HasSplit workspace leader w result =
    (result.0 ≡ 0)
    × (e : Exchange) × (splits result.1.log ≡ e ∷ splits w.log)
    × (e.request
        ≡ pane_split workspace (next_pane leader (splits w.log)) (next_direction (splits w.log)))
    × Keeps workspace leader result.1

module _ (server : Server) where
  -- The state file and the splits are as before.
  abbrev pub Quiet : World → World → Type 0
  Quiet w w' =
      (w'.state_file ≡ w.state_file)
      × (w'.is_writable ≡ w.is_writable)
      × (splits w'.log ≡ splits w.log)

  answered-Quiet :
      (answer : Response) (w w' : World) (rest : Bool × World)
      → Quiet w w'
      → Quiet w rest.1
      → Quiet w (type_answered answer w' rest).1
  answered-Quiet (done root) w w' rest h k = h
  answered-Quiet (failed message) w w' rest h k = elim (Bool-cases (is_transient message)) [
    | inl wait ↦ rw wait k
    | inr stop ↦ rw stop h
  ]

  pub loop-Quiet :
      (left : ℕ) (workspace : ℤ) (pane text : Text) (w : World)
      → Quiet w (type_loop server left (type_text workspace pane text) w).1
  loop-Quiet zero workspace pane text w = (refl, refl, refl)
  loop-Quiet (suc left) workspace pane text w =
      let request = type_text workspace pane text in
      answered-Quiet (server w.log request) w (ask server request w).1
        (type_loop server left request (ask server request w).1) (refl, refl, refl)
        (loop-Quiet left workspace pane text (ask server request w).1)

  command-Quiet :
      (workspace : ℤ) (pane : Text) (text : Option Text) (w : World)
      → Quiet w (type_command server workspace pane text w)
  unfolding type_text_with_retry
  command-Quiet workspace pane none w = (refl, refl, refl)
  command-Quiet workspace pane (some text) w = loop-Quiet 20 workspace pane text w

  saved-main :
      (workspace : ℤ) (leader new : Text) (last : Option Text) (w : World)
      → w.is_writable ≡ true
      → is_empty leader ≡ false
      → is_empty new ≡ false
      → (save_state (record (main_state workspace leader last) { last_column_pane = some new }) w).1
        ≡ record w { state_file = some (main_state workspace leader (some new)) }
  saved-main workspace leader new last w h k n = rw (h, k, n) refl

  -- A command that has made the pane `new` in the column of the leader.
  abbrev Kept : ℤ → Text → Text → World → ℕ × World → Type 0
  Kept workspace leader new w r =
      (r.0 ≡ 0)
      × (splits r.1.log ≡ splits w.log)
      × (r.1.state_file ≡ some (main_state workspace leader (some new)))
      × (r.1.is_writable ≡ true)

  done-Kept :
      (args : List Text) (cwd : Option Text) (workspace : ℤ) (leader new : Text)
      (last : Option Text) (w : World)
      → is_empty new ≡ false
      → w.is_writable ≡ true
      → is_empty leader ≡ false
      → Kept workspace leader new w
          (0, split_done server args cwd (main_state workspace leader last) new w)
  done-Kept args cwd workspace leader new last w h k n =
      let state = record (main_state workspace leader last) { last_column_pane = some new } in
      let saved = saved-main workspace leader new last w k n h in
      let (file, writable, same) =
        command-Quiet workspace new (shell_command_text args cwd) (save_state state w).1 in
      (
        refl,
        same ∙ ap (λ v. splits v.log) saved,
        file ∙ ap (λ v. v.state_file) saved,
        writable ∙ ap (λ v. v.is_writable) saved ∙ k,
      )

  answered-Kept :
      (args : List Text) (cwd : Option Text) (workspace : ℤ) (leader : Text) (last : Option Text)
      (answer : Response) (w : World)
      → is_empty (pane_of answer) ≡ false
      → w.is_writable ≡ true
      → is_empty leader ≡ false
      → Kept workspace leader
          (pane_of answer)
          w
          (split_answered server args cwd (main_state workspace leader last) answer w)
  answered-Kept args cwd workspace leader last (failed message) w h k n = cc
  answered-Kept args cwd workspace leader last (done root) w h k n =
      let new = pane_of (done root) in
      let state = main_state workspace leader last in
      subst (Kept workspace leader new w)
        (sym (else_branch (is_empty new) (1, w) (0, split_done server args cwd state new w) h))
        (done-Kept args cwd workspace leader new last w h k n)

  -- The request for the next pane.
  abbrev next_split : ℤ → Text → List Exchange → Request
  next_split workspace leader l = pane_split workspace (next_pane leader l) (next_direction l)

  split_window-eq :
      (env : TmuxEnv) (args : List Text) (workspace : ℤ) (leader : Text) (w : World)
      → SplitsLeader env leader args
      → Keeps workspace leader w
      → let request = next_split workspace leader (splits w.log) in
        let state = main_state workspace leader (newest (splits w.log)) in
        split_window server env args w
        ≡ split_answered server args
            (split_args args no_args).cwd
            state
            (server w.log request)
            (ask server request w).1
  unfolding split_window
  split_window-eq env args workspace leader w (right, target) (file, writable, named) =
      let a = split_args args no_args in
      let state = main_state workspace leader (newest (splits w.log)) in
      let at =
        ap (λ h. placed state leader h) right ∙ placed-pane workspace leader (splits w.log) named in
      ap₂ (λ f t. split_from server args a f t w) file target
      ∙ ap
          (λ (p : Text × Text).
            split_answered server args a.cwd state (server w.log (pane_split workspace p.0 p.1))
              (ask server (pane_split workspace p.0 p.1) w).1)
          at

  pub split_window-HasSplit :
      (env : TmuxEnv) (args : List Text) (workspace : ℤ) (leader : Text) (w : World)
      → NamesPanes server
      → is_empty leader ≡ false
      → SplitsLeader env leader args
      → Keeps workspace leader w
      → HasSplit workspace leader w (split_window server env args w)
  split_window-HasSplit env args workspace leader w names n splits_leader keeps =
      let l = splits w.log in
      let request = next_split workspace leader l in
      let answer = server w.log request in
      let new = names w.log workspace (next_pane leader l) (next_direction l) in
      let (code, log, file, writable) =
        answered-Kept args (split_args args no_args).cwd workspace leader (newest l) answer
          (ask server request w).1 new keeps.1 n in
      let after =
        (split_answered server args (split_args args no_args).cwd
          (main_state workspace leader (newest l)) answer (ask server request w).1).1 in
      let file_of = after.state_file in
      let written = after.is_writable in
      subst (HasSplit workspace leader w)
        (sym (split_window-eq env args workspace leader w splits_leader keeps))
        (
          code,
          record { request = request; answer = answer },
          log,
          refl,
          subst
              (λ s.
                (file_of ≡ some (main_state workspace leader (newest s)))
                × (written ≡ true)
                × Named s)
              (sym log) (file, writable, new),
        )
