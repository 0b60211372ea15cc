-- ===== src/Status/Normal.antt =====
-- What a normalized status entry holds (workspace_status_entry_normalize).
use prettymux.Prelude.{
  ℕ, zero, suc, ◌≡◌, refl, ap, ◌∙◌, true, false, [], ◌∷◌, ◌++◌, if◌then◌else◌, take, Bool-cases,
  inl, inr,
}
use prettymux.Prelude.Int.{ℤ, pos, ltb_ℤ}
use prettymux.Prelude.Text.{Text, is_empty, codes, strlcpy}
use prettymux.Status.{StatusEntry, normalize, or_text, fallback_summary}

take-take : (n : ℕ) (t : Text) → take n (take n t) ≡ take n t
take-take zero t = refl
take-take (suc n) [] = refl
take-take (suc n) (c ∷ t) = ap (λ l. c ∷ l) (take-take n t)

-- A text that is filled stays as it is, and a buffer keeps it filled.
or_text-filled : (t u : Text) → is_empty t ≡ false → or_text t u ≡ t
or_text-filled t u h = rw h refl

filled-take : (n : ℕ) (t : Text) → is_empty t ≡ false → is_empty (take (suc n) t) ≡ false
filled-take n [] h = cc
filled-take n (c ∷ t) h = refl

filled-or_text : (t u : Text) → is_empty u ≡ false → is_empty (or_text t u) ≡ false
filled-or_text [] u h = h
filled-or_text (c ∷ t) u h = refl

filled-append : (s t : Text) (c : ℕ) → is_empty (s ++ c ∷ t) ≡ false
filled-append [] t c = refl
filled-append (d ∷ s) t c = refl

-- A field that has its default once does not need it again.
field-again :
    (n : ℕ) (t u v : Text)
    → is_empty u ≡ false
    → take (suc n) (or_text (take (suc n) (or_text t u)) v) ≡ take (suc n) (or_text t u)
field-again n t u v h =
    ap (take (suc n)) (
      or_text-filled (take (suc n) (or_text t u)) v
        (filled-take n (or_text t u) (filled-or_text t u h)))
    ∙ take-take (suc n) (or_text t u)

is_empty-fallback :
    (detail status kind : Text)
    → is_empty kind ≡ false
    → is_empty (fallback_summary detail status kind) ≡ false
is_empty-fallback (c ∷ detail) status kind h = refl
is_empty-fallback [] (c ∷ status) kind h = refl
is_empty-fallback [] [] kind h = filled-take 190 kind h

fallback-fits :
    (detail status kind : Text)
    → strlcpy 192 (fallback_summary detail status kind) ≡ fallback_summary detail status kind
fallback-fits (c ∷ detail) status kind = take-take 191 (c ∷ detail)
fallback-fits [] (c ∷ status) kind = take-take 191 (c ∷ status)
fallback-fits [] [] kind = take-take 191 kind

or_text-fits :
    (t u : Text) → strlcpy 192 t ≡ t → strlcpy 192 u ≡ u → strlcpy 192 (or_text t u) ≡ or_text t u
or_text-fits [] u h k = k
or_text-fits (c ∷ t) u h k = h

-- A summary that was filled once stays.
summary-again :
    (summary detail status kind v : Text)
    → is_empty kind ≡ false
    → or_text (strlcpy 192 (or_text (strlcpy 192 summary) (fallback_summary detail status kind))) v
      ≡ or_text (strlcpy 192 summary) (fallback_summary detail status kind)
summary-again summary detail status kind v h =
    let first : Text = or_text (strlcpy 192 summary) (fallback_summary detail status kind) in
    let fits : strlcpy 192 first ≡ first =
      or_text-fits (strlcpy 192 summary) (fallback_summary detail status kind)
        (take-take 191 summary) (fallback-fits detail status kind) in
    let filled : is_empty first ≡ false =
      filled-or_text (strlcpy 192 summary) (fallback_summary detail status kind)
        (is_empty-fallback detail status kind h) in
    ap (λ t. or_text t v) fits ∙ or_text-filled first v filled

-- Entries that agree in each field.
entry-eq :
    (x y : StatusEntry)
    → x.entry_id ≡ y.entry_id
    → x.provider ≡ y.provider
    → x.kind ≡ y.kind
    → x.status ≡ y.status
    → x.summary ≡ y.summary
    → x.detail ≡ y.detail
    → x.updated_at_usec ≡ y.updated_at_usec
    → x.attention ≡ y.attention
    → x ≡ y
entry-eq x y a b c d e f g h = cc

time-again :
    (now later time : ℤ)
    → ltb_ℤ (pos 0) now ≡ true
    → (if ltb_ℤ (pos 0) (if ltb_ℤ (pos 0) time then time else now)
        then (if ltb_ℤ (pos 0) time then time else now)
        else later)
      ≡ (if ltb_ℤ (pos 0) time then time else now)
time-again now later time h = elim (Bool-cases (ltb_ℤ (pos 0) time)) [
  | inl set_time ↦ rw (set_time, set_time) refl
  | inr unset ↦ rw (unset, h) refl
]

-- When the clock is past the start of its time, normalizing an entry that was normalized changes nothing.
pub normalize-normalize :
    (now later : ℤ) (e : StatusEntry)
    → ltb_ℤ (pos 0) now ≡ true
    → normalize later (normalize now e) ≡ normalize now e
unfolding normalize
normalize-normalize now later e h =
    let provider : Text = or_text e.provider (codes "agent") in
    let kind : Text = or_text e.kind (codes "status") in
    let named : is_empty kind ≡ false = filled-or_text e.kind (codes "status") refl in
    entry-eq (normalize later (normalize now e)) (normalize now e)
      (field-again 94 e.entry_id (provider ++ 58 ∷ kind)
        (or_text (strlcpy 48 provider) (codes "agent")
          ++ 58 ∷ or_text (strlcpy 48 kind) (codes "status"))
        (filled-append provider kind 58))
      (field-again 46 e.provider (codes "agent") (codes "agent") refl)
      (field-again 46 e.kind (codes "status") (codes "status") refl) (take-take 63 e.status)
      (summary-again e.summary (strlcpy 320 e.detail) (strlcpy 64 e.status) kind
        (fallback_summary (strlcpy 320 (strlcpy 320 e.detail)) (strlcpy 64 (strlcpy 64 e.status))
          (or_text (strlcpy 48 kind) (codes "status")))
        named)
      (take-take 319 e.detail) (time-again now later e.updated_at_usec h) refl
