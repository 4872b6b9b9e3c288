-- ===== src/ServiceId/Catalog/Laws.antt =====
-- service_id.rs: the list of all identifiers is free of ambiguity, and holds what the code uses.
use text.Mathlib.Text.{◌==◌}
use text.Mathlib.TextEquality.{eq_iff}
use review_protocol.Prelude.{
  ◌≡◌, refl, sym, ap, ◌∙◌, String, Bool, true, not, ◌&&◌, ◌⊎◌, inl, inr, List, [], ◌∷◌, arith,
}
use review_protocol.ServiceId.Defs.{ServiceId, to_string}
use review_protocol.ServiceId.Catalog.{all}

-- Membership in a list, by recursion.
abbrev pub IsIn : ServiceId → List ServiceId → Type 0
IsIn x [] = ⊥
IsIn x (y ∷ ys) = (x ≡ y) ⊎ IsIn x ys

-- No identifier of the list has the text `s`.
fresh : String → List ServiceId → Bool
unfolding to_string
fresh s [] = true
fresh s (x ∷ xs) = not (s == to_string x) && fresh s xs

distinct : List ServiceId → Bool
unfolding fresh to_string
distinct [] = true
distinct (x ∷ xs) = fresh (to_string x) xs && distinct xs

fresh-IsIn :
    (s : String) (xs : List ServiceId) (y : ServiceId)
    → fresh s xs ≡ true
    → IsIn y xs
    → s ≡ to_string y
    → ⊥
unfolding fresh
fresh-IsIn s [] y f m p = elim m [ ]
fresh-IsIn s (x ∷ xs) y f (inl e) p = ground (arith, eq_iff s (to_string x), ap to_string e)
fresh-IsIn s (x ∷ xs) y f (inr m) p = fresh-IsIn s xs y (ground arith) m p

distinct-inj :
    (xs : List ServiceId) (x y : ServiceId)
    → distinct xs ≡ true
    → IsIn x xs
    → IsIn y xs
    → to_string x ≡ to_string y
    → x ≡ y
unfolding distinct
distinct-inj [] x y d m n e = elim m [ ]
distinct-inj (z ∷ zs) x y d (inl p) (inl q) e = p ∙ sym q
distinct-inj (z ∷ zs) x y d (inl p) (inr n) e =
    absurd (fresh-IsIn (to_string z) zs y (ground arith) n (ap to_string (sym p) ∙ e))
distinct-inj (z ∷ zs) x y d (inr m) (inl q) e =
    absurd (fresh-IsIn (to_string z) zs x (ground arith) m (ap to_string (sym q) ∙ sym e))
distinct-inj (z ∷ zs) x y d (inr m) (inr n) e = distinct-inj zs x y (ground arith) m n e

all-distinct : distinct all ≡ true
unfolding distinct all
all-distinct = refl

-- Two identifiers of the list that display the same text are the same identifier.
pub to_string_inj : (x y : ServiceId) → IsIn x all → IsIn y all → to_string x ≡ to_string y → x ≡ y
to_string_inj x y = distinct-inj all x y all-distinct
