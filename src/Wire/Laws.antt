-- ===== src/Wire/Laws.antt =====
-- A send on a stream: the frame is appended, or the send fails and nothing is.
use review_protocol.Prelude.{
  ◌≡◌, refl, ◌⊎◌, inl, inr, ok, err, none, some, Option, List, [], ◌∷◌, ◌++◌, ℕ, ◌+◌, arith, length,
  length-append,
}
use review_protocol.ProtocolError.{IoError}
use review_protocol.Wire.{SendStream, send_frame, send_outcome}

send_outcome-cases :
    {F : Type 0} (f : F) (sent : List F) (os : List (Option IoError))
    → (((send_outcome f sent os).0 ≡ ok tt) × ((send_outcome f sent os).1.sent ≡ sent ++ f ∷ []))
      ⊎ ((e : IoError) × ((send_outcome f sent os).0 ≡ err e)
          × ((send_outcome f sent os).1.sent ≡ sent))
unfolding send_outcome
send_outcome-cases f sent [] = inl (refl, refl)
send_outcome-cases f sent (none ∷ os) = inl (refl, refl)
send_outcome-cases f sent (some e ∷ os) = inr (e, refl, refl)

pub send_frame-cases :
    {F : Type 0} (f : F) (s : SendStream F)
    → (((send_frame f s).0 ≡ ok tt) × ((send_frame f s).1.sent ≡ s.sent ++ f ∷ []))
      ⊎ ((e : IoError) × ((send_frame f s).0 ≡ err e) × ((send_frame f s).1.sent ≡ s.sent))
unfolding send_frame
send_frame-cases f s = send_outcome-cases f s.sent s.outcomes

-- A stream whose sends do not fail.
abbrev pub Reliable : {F : Type 0} → SendStream F → Type 0
Reliable s = s.outcomes ≡ []

pub send_frame-Reliable :
    {F : Type 0} (f : F) (s : SendStream F)
    → Reliable s
    → send_frame f s ≡ (ok tt, record { outcomes = []; sent = s.sent ++ f ∷ [] })
unfolding send_frame
send_frame-Reliable f s h = rw (h, send_outcome)

-- `n` more frames have been sent, and the sends still do not fail.
pub record Grew {F : Type 0} (s : SendStream F) (n : ℕ) (s' : SendStream F) : Type 0 where
  pub counted : length s'.sent ≡ length s.sent + n
  pub reliable : Reliable s'

pub Grew-none : {F : Type 0} (s : SendStream F) → Reliable s → Grew s 0 s
Grew-none s r = record { counted = omega arith; reliable = r }

pub Grew-one :
    {F : Type 0} (a : F) (s : SendStream F)
    → Grew s 1 (record { outcomes = []; sent = s.sent ++ a ∷ [] })
Grew-one a s = record { counted = length-append s.sent (a ∷ []); reliable = refl }

pub Grew-two :
    {F : Type 0} (a b : F) (s : SendStream F)
    → Grew s 2 (record { outcomes = []; sent = (s.sent ++ a ∷ []) ++ b ∷ [] })
Grew-two a b s = record {
  counted = omega (arith, length-append (s.sent ++ a ∷ []) (b ∷ []), length-append s.sent (a ∷ []));
  reliable = refl;
}
