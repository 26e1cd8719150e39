-- ===== src/Schedule/Equality.antt =====
-- lib/schedule.ts: comparison of texts (`===`) decides their equality.
use ufcim_backend_proto.Prelude.{◌≡◌, refl, true, [], ◌∷◌, arith, ==_refl}
use ufcim_backend_proto.Schedule.Times.{Text, text_eq}

pub eq_of_text_eq : (s t : Text) → text_eq s t ≡ true → s ≡ t
unfolding text_eq
eq_of_text_eq [] [] h = refl
eq_of_text_eq [] (d ∷ ds) h = cc
eq_of_text_eq (c ∷ cs) [] h = cc
eq_of_text_eq (c ∷ cs) (d ∷ ds) h = ground (arith, eq_of_text_eq cs ds)

pub text_eq_refl : (s : Text) → text_eq s s ≡ true
unfolding text_eq
text_eq_refl [] = refl
text_eq_refl (c ∷ cs) = ground (arith, text_eq_refl cs, ==_refl c)
