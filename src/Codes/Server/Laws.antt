-- ===== src/Codes/Server/Laws.antt =====
-- The request codes of the manager, server.rs: the wire numbers name them without ambiguity.
use review_protocol.Prelude.{ℕ, ◌≡◌, ◌≢◌, ◌↔◌, refl, sym, ap, ◌∙◌, ◌⊎◌, inl, inr, arith}
use review_protocol.Codes.Server.{RequestCode, to_u32, from_primitive}

pub from_primitive-to_u32 : (c : RequestCode) → from_primitive (to_u32 c) ≡ c
unfolding from_primitive to_u32
from_primitive-to_u32 RequestCode.get_data_source = refl
from_primitive-to_u32 _ = refl

pub from_primitive-cases :
    (n : ℕ) → (from_primitive n ≡ RequestCode.unknown) ⊎ (to_u32 (from_primitive n) ≡ n)
unfolding from_primitive to_u32
from_primitive-cases n = ground arith

-- A wire number decodes to a code other than `unknown` exactly when it is that code's number.
pub from_server_primitive_iff :
    (n : ℕ) (c : RequestCode) → c ≢ RequestCode.unknown → (from_primitive n ≡ c) ↔ (n ≡ to_u32 c)
from_server_primitive_iff n c h = (
  λ e. elim (from_primitive-cases n) [
    | inl u ↦ absurd (h (sym e ∙ u))
    | inr k ↦ sym k ∙ ap to_u32 e
  ],
  λ e. rw e (from_primitive-to_u32 c),
)
