-- ===== src/Agent/Find.antt =====
-- Which instance the command line talks to (find_socket_path).
use prettymux.Prelude.{
  ◌≡◌, refl, sym, ap, ◌∙◌, ◌⊎◌, inl, inr, subst, true, false, Option, none, some, List, [], ◌∷◌,
  arith, All, Bool-cases, Option-cases,
}
use prettymux.Prelude.Text.{Text, is_empty}
use prettymux.Instance.Nested.{Surroundings}
use prettymux.Agent.{Running, running_at, of_best, scan, find_socket_path}
use prettymux.Agent.Order.{below, below_trans, below_total, below_irrefl}

-- One of the elements.
abbrev pub Some : {A : Type 0} → (A → Type 0) → List A → Type 0
Some P [] = ⊥
Some P (x ∷ l) = P x ⊎ Some P l

module _ (env : Surroundings) where
  -- No running instance of the folder comes before this one.
  abbrev pub NotBelow : Running → Text → Type 0
  NotBelow best name =
      (found : Running) → running_at env name ≡ some found → below found.id best.id ≡ false

  abbrev pub IsBest : List Text → Option Running → Type 0
  IsBest entries none = All (λ name. running_at env name ≡ none) entries
  IsBest entries (some best) =
      Some (λ name. running_at env name ≡ some best) entries × All (NotBelow best) entries

  -- One that is not below `b` is not above what is not above `b`.
  kept :
      (f b r : Running)
      → below f.id b.id ≡ false
      → below b.id r.id ≡ false
      → below f.id r.id ≡ false
  kept f b r h k = elim (Bool-cases (below f.id r.id)) [
    | inr ok ↦ ok
    | inl bad ↦ elim (Bool-cases (below r.id b.id)) [
      | inl lower ↦ absurd (ground (arith, below_trans f.id r.id b.id bad lower))
      | inr same ↦
          let e : r.id ≡ b.id = below_total r.id b.id same k in
          absurd (ground (arith, ap (λ x. below f.id x) e))
    ]
  ]

  -- Below one that is not below the third, so not below the third.
  above : (b f r : Text) → below f b ≡ true → below f r ≡ false → below b r ≡ false
  above b f r h k = elim (Bool-cases (below b r)) [
    | inr ok ↦ ok
    | inl bad ↦ absurd (ground (arith, below_trans f b r h bad))
  ]

  scan-from :
      (entries : List Text) (b : Running)
      → (r : Running) × (scan env entries (some b) ≡ some r)
        × ((r ≡ b) ⊎ Some (λ name. running_at env name ≡ some r) entries)
        × (below b.id r.id ≡ false)
        × All (NotBelow r) entries
  scan-from [] b = (b, refl, inl refl, below_irrefl b.id, tt)
  scan-from (name ∷ rest) b = elim (Option-cases (running_at env name)) [
    | inl out ↦
        let (r, found, from, low, all) = scan-from rest b in
        (
          r,
          ground arith,
          elim from [ inl e ↦ inl e | inr s ↦ inr (inr s) ],
          low,
          ((λ f e. cc), all),
        )
    | inr (f, at) ↦ elim (Bool-cases (below f.id b.id)) [
      | inl lower ↦
          let (r, found, from, low, all) = scan-from rest f in
          (
            r,
            ground arith,
            elim from [
              | inl e ↦ inr (inl (subst (λ x. running_at env name ≡ some x) (sym e) at))
              | inr s ↦ inr (inr s)
            ],
            above b.id f.id r.id lower low,
            ((λ g e. let same : f ≡ g = cc in subst (λ x. below x.id r.id ≡ false) same low), all),
          )
      | inr higher ↦
          let (r, found, from, low, all) = scan-from rest b in
          (
            r,
            ground arith,
            elim from [ inl e ↦ inl e | inr s ↦ inr (inr s) ],
            low,
            (
              (λ g e.
                  let same : f ≡ g = cc in
                  subst (λ x. below x.id r.id ≡ false) same (kept f b r higher low)),
              all,
            ),
          )
    ]
  ]

  scan-IsBest :
      (entries : List Text)
      → (best : Option Running) × (scan env entries none ≡ best) × IsBest entries best
  scan-IsBest [] = (none, refl, tt)
  scan-IsBest (name ∷ rest) = elim (Option-cases (running_at env name)) [
    | inl out ↦ skipped name rest out (scan-IsBest rest)
    | inr (f, at) ↦
        let (r, found, from, low, all) = scan-from rest f in
        (
          some r,
          ground arith,
          (
            elim from [
              | inl e ↦ inl (subst (λ x. running_at env name ≡ some x) (sym e) at)
              | inr s ↦ inr s
            ],
            ((λ g e. let same : f ≡ g = cc in subst (λ x. below x.id r.id ≡ false) same low), all),
          ),
        )
  ]
    where
      skipped :
          (name : Text) (rest : List Text)
          → running_at env name ≡ none
          → ((best : Option Running) × (scan env rest none ≡ best) × IsBest rest best)
          → (best : Option Running) × (scan env (name ∷ rest) none ≡ best)
            × IsBest (name ∷ rest) best
      skipped name rest out (none, found, all) = (none, ground arith, (out, all))
      skipped name rest out (some r, found, is_best) =
          (some r, ground arith, (inr is_best.0, ((λ f e. cc), is_best.1)))

  -- Nothing is named: the variable is not set, or it is empty.
  abbrev pub Unnamed : Option Text → Type 0
  Unnamed none = Unit
  Unnamed (some t) = is_empty t ≡ true

  folder-eq :
      (socket instance : Option Text) (entries : List Text)
      → env.parent_socket ≡ socket
      → env.instance_id ≡ instance
      → Unnamed socket
      → Unnamed instance
      → find_socket_path env (some entries) ≡ of_best (scan env entries none)
  unfolding find_socket_path
  folder-eq none none entries p q h k = rw (p, q) refl
  folder-eq none (some t) entries p q h k = rw (p, q, k) refl
  folder-eq (some s) none entries p q h k = rw (p, h, q) refl
  folder-eq (some s) (some t) entries p q h k = rw (p, h, q, k) refl

  -- When the environment names neither a socket nor an instance, and the runtime folder can be read, the socket
  -- found is that of a running instance of the folder, such that no running instance of it has a name that comes
  -- before; and the error is that there is none exactly when no entry of the folder is a running instance.
  pub find_socket_path-IsBest :
      (entries : List Text)
      → Unnamed env.parent_socket
      → Unnamed env.instance_id
      → (best : Option Running) × (find_socket_path env (some entries) ≡ of_best best)
        × IsBest entries best
  find_socket_path-IsBest entries h k =
      let (best, found, is_best) = scan-IsBest entries in
      (
        best,
        folder-eq env.parent_socket env.instance_id entries refl refl h k ∙ ap of_best found,
        is_best,
      )
