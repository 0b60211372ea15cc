-- ===== src/Agent/Stacked.antt =====
-- Where repeated splits of the leader's pane go in the layout main-vertical (tmux_split_window).
use prettymux.Prelude.{
  ℕ, ◌+◌, ◌≡◌, sym, ap, subst, true, false, none, some, List, [], ◌∷◌, arith, All, length,
}
use prettymux.Prelude.Int.{ℤ}
use prettymux.Prelude.Text.{Text, codes, is_empty}
use prettymux.Agent.Tmux.{Exchange, Server, World, TmuxEnv}
use prettymux.Agent.Commands.{placed, split_window}
use prettymux.Agent.Column.{
  splits, NamesPanes, Stacked, main_state, SplitsLeader, split_each, newest, Named,
}
use prettymux.Agent.Split.{Keeps, split_window-HasSplit}

-- After some of the commands.
abbrev Run : ℤ → Text → List Exchange → ℕ → List ℕ × World → Type 0
Run workspace leader l n r =
    All (λ code. code ≡ 0) r.0
    × (length (splits r.1.log) ≡ n + length l)
    × Stacked workspace leader (splits r.1.log)

module _ (server : Server) where
  split_each-Run :
      (env : TmuxEnv) (commands : List (List Text)) (workspace : ℤ) (leader : Text) (w : World)
      → NamesPanes server
      → is_empty leader ≡ false
      → All (SplitsLeader env leader) commands
      → Keeps workspace leader w
      → Stacked workspace leader (splits w.log)
      → Run workspace leader (splits w.log) (length commands) (split_each server env commands w)
  split_each-Run env [] workspace leader w names n all keeps stacked = (tt, ground arith, stacked)
  split_each-Run env (args ∷ rest) workspace leader w names n all keeps stacked =
      let (code, e, log, request, keeps') =
        split_window-HasSplit server env args workspace leader w names n all.0 keeps in
      let after = (split_window server env args w).1 in
      let (codes, count, placed) =
        split_each-Run env rest workspace leader after names n all.1 keeps'
          (subst (Stacked workspace leader) (sym log) (request, stacked)) in
      let longer = ap length log in ((code, codes), ground arith, placed)

  -- Let the state be that of a leader in the layout main-vertical without further panes, let the server
  -- answer each split with a pane, and let the state file stay writable. Then commands that split the
  -- leader's pane to the right all exit with 0, and each sends one split: the first one of the leader
  -- to the right, each further one downwards of the pane that the one before has made.
  pub split_window-Stacked :
      (env : TmuxEnv) (commands : List (List Text)) (workspace : ℤ) (leader : Text) (w : World)
      → NamesPanes server
      → is_empty leader ≡ false
      → w.state_file ≡ some (main_state workspace leader none)
      → w.is_writable ≡ true
      → w.log ≡ []
      → All (SplitsLeader env leader) commands
      → let r = split_each server env commands w in
        All (λ code. code ≡ 0) r.0
        × (length (splits r.1.log) ≡ length commands)
        × Stacked workspace leader (splits r.1.log)
  split_window-Stacked env commands workspace leader w names n file writable log all =
      let none_split = ap splits log in
      let (codes, count, stacked) =
        split_each-Run env commands workspace leader w names n all
          (subst
            (λ l.
              (w.state_file ≡ some (main_state workspace leader (newest l)))
              × (w.is_writable ≡ true)
              × Named l)
            (sym none_split) (file, writable, tt))
          (subst (Stacked workspace leader) (sym none_split) tt) in
      let empty = ap length none_split in (codes, ground arith, stacked)
