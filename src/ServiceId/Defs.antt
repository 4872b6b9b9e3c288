-- ===== src/ServiceId/Defs.antt =====
-- `ServiceId` of service_id.rs: its fields, its constructor, its test and its text.
use review_protocol.Prelude.{String, Bool, ◌<>◌, if◌then◌else◌}
use text.Mathlib.Text.{◌==◌}

pub record ServiceId : Type 0 where
  pub family : String
  pub method : String

abbrev pub new : String → String → ServiceId
new family method = record { family = family; method = method }

unfoldable pub is_family : ServiceId → Bool
is_family id = id.method == ""

-- `impl fmt::Display for ServiceId`
unfoldable pub to_string : ServiceId → String
to_string id = if id.method == "" then id.family else id.family <> "." <> id.method
