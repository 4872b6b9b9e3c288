-- ===== src/Types/Detection.antt =====
-- types.rs: networks, policies, label databases, models' data and events. `Net` stands for `IpNet`
-- of the ipnet crate, `Stats` for `ColumnStatistics` of the structured crate.
use review_protocol.Prelude.{ℕ, String, List, Option}
use review_protocol.Types.Shared.{ℤ, IpAddr, Duration, Timestamp}
use review_protocol.Types.Shared.{CivilDateTime}

pub record HostNetworkGroup (Net : Type 0) : Type 0 where
  pub hosts : List IpAddr
  pub networks : List Net
  pub ip_ranges : List (IpAddr × IpAddr)

pub data SamplingKind : Type 0 where
  conn dns http rdp : SamplingKind

pub record SamplingPolicy : Type 0 where
  pub id : ℕ
  pub kind : SamplingKind
  pub interval : Duration
  pub period : Duration
  pub offset : ℤ
  pub src_ip : Option IpAddr
  pub dst_ip : Option IpAddr
  pub node : Option String
  pub column : Option ℕ

pub data EventCategory : Type 0 where
  reconnaissance initial_access execution credential_access discovery : EventCategory
  lateral_movement command_and_control exfiltration impact collection : EventCategory
  defense_evasion persistence privilege_escalation resource_development : EventCategory

pub data LabelDbKind : Type 0 where
  ip url token regex : LabelDbKind

pub data RuleKind : Type 0 where
  os agent_software : RuleKind

pub record UserAgent : Type 0 where
  pub name : String
  pub header : String
  pub kind : RuleKind
  pub last_modification_time : ℤ

pub record LabelDbRule : Type 0 where
  pub rule_id : ℕ
  pub category : Option EventCategory
  pub name : String
  pub kind : Option RuleKind
  pub description : Option String
  pub references : Option (List String)
  pub samples : Option (List String)
  pub signatures : Option (List String)
  pub confidence : Option ℕ

pub record LabelDb : Type 0 where
  pub id : ℕ
  pub name : String
  pub description : Option String
  pub kind : LabelDbKind
  pub category : Option EventCategory
  pub version : String
  pub patterns : List LabelDbRule

pub record ColumnStatisticsUpdate (Stats : Type 0) : Type 0 where
  pub cluster_id : ℕ
  pub column_statistics : List Stats

pub record TimeCount : Type 0 where
  pub time : CivilDateTime
  pub count : ℕ

pub record TimeSeries : Type 0 where
  pub count_index : Option ℕ
  pub series : List TimeCount

pub record TimeSeriesUpdate : Type 0 where
  pub cluster_id : ℕ
  pub time_series : List TimeSeries

pub record UpdateClusterRequest : Type 0 where
  pub cluster_id : ℕ
  pub detector_id : ℤ
  pub signature : String
  pub score : Option ℕ
  pub size : ℤ
  pub event_ids : List (ℤ × String)
  pub status_id : ℤ
  pub labels : Option (List String)

pub record OutlierInfo : Type 0 where
  pub id : ℤ
  pub rank : ℤ
  pub distance : ℕ
  pub sensor : String

pub data EventKind : Type 0 where
  dns_covert_channel http_threat rdp_brute_force repeated_http_sessions : EventKind
  extra_threat tor_connection domain_generation_algorithm ftp_brute_force : EventKind
  ftp_plain_text port_scan multi_host_port_scan non_browser ldap_brute_force : EventKind
  ldap_plain_text external_ddos cryptocurrency_mining_pool blocklist_conn : EventKind
  blocklist_dns blocklist_dce_rpc blocklist_ftp blocklist_http blocklist_kerberos : EventKind
  blocklist_ldap blocklist_mqtt blocklist_nfs blocklist_ntlm blocklist_rdp : EventKind
  blocklist_smb blocklist_smtp blocklist_ssh blocklist_tls windows_threat : EventKind
  network_threat locky_ransomware suspicious_tls_traffic blocklist_bootp : EventKind
  blocklist_dhcp tor_connection_conn blocklist_radius blocklist_malformed_dns : EventKind
  unusual_destination_pattern : EventKind

pub record EventMessage : Type 0 where
  pub time : Timestamp
  pub kind : EventKind
  pub fields : List ℕ
