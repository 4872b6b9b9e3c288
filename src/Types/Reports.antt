-- ===== src/Types/Reports.antt =====
-- types.rs: what agents report to the manager, and data sources.
use review_protocol.Prelude.{ℕ, String, List, Option}
use review_protocol.Types.Shared.{ℤ, SocketAddr}

pub data CustomerDataDeletionReporter : Type 0 where
  sensor semi_supervised : CustomerDataDeletionReporter

pub data CustomerDataDeletionOutcome : Type 0 where
  succeeded : CustomerDataDeletionOutcome
  failed : String → CustomerDataDeletionOutcome

pub record CustomerDataDeletionReport : Type 0 where
  pub id : ℕ
  pub host_fqdn : String
  pub completed_at : Option ℤ
  pub reporter : CustomerDataDeletionReporter
  pub outcome : CustomerDataDeletionOutcome

pub data ReportedRunState : Type 0 where
  started failed cancelled : ReportedRunState

pub data DetectorState : Type 0 where
  running disabled no_model paused_for_run : DetectorState

pub data RoundOutcome : Type 0 where
  succeeded failed : RoundOutcome

pub data SourceState : Type 0 where
  served served_by_no_node failed : SourceState

pub record SourceStatus : Type 0 where
  pub source : String
  pub state : SourceState
  pub reason : Option String

pub record DetectorStatusReport : Type 0 where
  pub detector_id : ℤ
  pub state : DetectorState
  pub finished_at : Option ℤ
  pub outcome : Option RoundOutcome
  pub reason : Option String
  pub events : ℕ
  pub sources : List SourceStatus

pub data DataSourceKey : Type 0 where
  id : ℕ → DataSourceKey
  name : String → DataSourceKey

pub data DataType : Type 0 where
  csv log time_series : DataType

pub record DataSource : Type 0 where
  pub id : ℕ
  pub name : String
  pub server_name : String
  pub address : SocketAddr
  pub data_type : DataType
  pub source : String
  pub kind : Option String
  pub description : String
