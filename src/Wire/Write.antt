-- ===== src/Wire/Write.antt =====
-- Partial writes and interrupted ones lose and repeat no byte (write_all_bytes).
use prettymux.Prelude.{
  ℕ, zero, suc, ◌≤◌, ◌≡◌, refl, sym, ap, ◌∙◌, Bool, true, false, Option, none, some, List, [], ◌∷◌,
  ◌++◌, arith, length, take, drop,
}
use mathlib.Core.List.{append-nil, append_assoc}
use prettymux.Prelude.Text.{Text}
use prettymux.Wire.{Answer, wrote, interrupted, failed, write_all_bytes}

pub take-drop : (n : ℕ) (t : Text) → take n t ++ drop n t ≡ t
take-drop zero t = refl
take-drop (suc n) [] = refl
take-drop (suc n) (c ∷ t) = ap (λ l. c ∷ l) (take-drop n t)

-- What was sent and what is left are all there is.
abbrev pub Sent : Text → Text → Option (Bool × Text) → Type 0
Sent sent t none = Unit
Sent sent t (some (true, out)) = out ≡ sent ++ t
Sent sent t (some (false, out)) = (rest : Text) × (out ++ rest ≡ sent ++ t)

Sent-move :
    (sent t sent' t' : Text) (r : Option (Bool × Text))
    → sent' ++ t' ≡ sent ++ t
    → Sent sent' t' r
    → Sent sent t r
Sent-move sent t sent' t' none e h = tt
Sent-move sent t sent' t' (some (true, out)) e h = h ∙ e
Sent-move sent t sent' t' (some (false, out)) e h = (h.0, h.1 ∙ e)

split : (sent t : Text) (c n : ℕ) → (sent ++ c ∷ take n t) ++ drop n t ≡ sent ++ c ∷ t
split sent t c n =
    append_assoc sent (c ∷ take n t) (drop n t) ∙ ap (λ l. sent ++ c ∷ l) (take-drop n t)

pub write-Sent :
    (answers : List Answer) (t sent : Text) → Sent sent t (write_all_bytes answers t sent)
unfolding write_all_bytes
write-Sent answers [] sent = sym (append-nil sent)
write-Sent [] (c ∷ t) sent = tt
write-Sent (interrupted ∷ answers) (c ∷ t) sent = write-Sent answers (c ∷ t) sent
write-Sent (failed ∷ answers) (c ∷ t) sent = (c ∷ t, refl)
write-Sent (wrote zero ∷ answers) (c ∷ t) sent = (c ∷ t, refl)
write-Sent (wrote (suc n) ∷ answers) (c ∷ t) sent =
    Sent-move sent (c ∷ t) (sent ++ c ∷ take n t) (drop n t)
      (write_all_bytes answers (drop n t) (sent ++ c ∷ take n t)) (split sent t c n)
      (write-Sent answers (drop n t) (sent ++ c ∷ take n t))

-- When the loop returns TRUE, the socket took exactly the bytes of the buffer in their order, however
-- they were split over the calls of `write` and however often a call was interrupted; when it returns
-- FALSE, the socket took a first part of them.
pub write_all_bytes-Sent :
    (answers : List Answer) (buf : Text) → Sent [] buf (write_all_bytes answers buf [])
write_all_bytes-Sent answers buf = write-Sent answers buf []

-- No answer is an error other than EINTR or takes no byte.
abbrev pub NoError : List Answer → Type 0
NoError [] = Unit
NoError (interrupted ∷ answers) = NoError answers
NoError (failed ∷ answers) = ⊥
NoError (wrote zero ∷ answers) = ⊥
NoError (wrote (suc n) ∷ answers) = NoError answers

-- How many answers take bytes.
abbrev pub writes : List Answer → ℕ
writes [] = 0
writes (interrupted ∷ answers) = writes answers
writes (failed ∷ answers) = writes answers
writes (wrote n ∷ answers) = suc (writes answers)

length-drop : (n : ℕ) (t : Text) → length (drop n t) ≤ length t
length-drop zero t = omega arith
length-drop (suc n) [] = omega arith
length-drop (suc n) (c ∷ t) = omega (arith, length-drop n t)

write-ends :
    (answers : List Answer) (t sent : Text)
    → NoError answers
    → length t ≤ writes answers
    → write_all_bytes answers t sent ≡ some (true, sent ++ t)
unfolding write_all_bytes
write-ends answers [] sent ok enough = ap (λ l. some (true, l)) (sym (append-nil sent))
write-ends [] (c ∷ t) sent ok enough = absurd (omega arith)
write-ends (interrupted ∷ answers) (c ∷ t) sent ok enough =
    write-ends answers (c ∷ t) sent ok enough
write-ends (failed ∷ answers) (c ∷ t) sent ok enough = absurd ok
write-ends (wrote zero ∷ answers) (c ∷ t) sent ok enough = absurd ok
write-ends (wrote (suc n) ∷ answers) (c ∷ t) sent ok enough =
    write-ends answers (drop n t) (sent ++ c ∷ take n t) ok (omega (arith, length-drop n t))
    ∙ ap (λ l. some (true, l)) (split sent t c n)

-- When no call of `write` fails or takes no byte, and as many calls take bytes as the buffer has, the
-- loop ends, returns TRUE and the socket took the whole buffer, interrupted calls notwithstanding.
pub write_all_bytes_ends :
    (answers : List Answer) (buf : Text)
    → NoError answers
    → length buf ≤ writes answers
    → write_all_bytes answers buf [] ≡ some (true, buf)
write_all_bytes_ends answers buf ok enough = write-ends answers buf [] ok enough
