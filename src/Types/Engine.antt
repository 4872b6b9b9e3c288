-- ===== src/Types/Engine.antt =====
-- types.rs: the requests to an agent that carry a record of their own. The definition of a run's
-- model is the text that the source carries.
use review_protocol.Prelude.{ℕ, String, Bool, List, Option}

pub record CustomerDataDeletionRequest : Type 0 where
  pub id : ℕ
  pub host_fqdn : String

pub record TrainModelRequest : Type 0 where
  pub run_id : ℕ
  pub model : String
  pub definition : String

pub record CloneModelRequest : Type 0 where
  pub run_id : ℕ
  pub source : String
  pub target_name : String
  pub strip_events : Bool

-- `Net` stands for `IpNet` of the ipnet crate.
abbrev pub TrafficFilterRule : Type 0 → Type 0
TrafficFilterRule Net = Net × Option (List ℕ) × Option (List ℕ)
