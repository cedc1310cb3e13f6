-- ===== src/Scan.antt =====
-- The lists that the port scanner works on, portscan/ps_setup.c and ps_setup.h: addresses, ports,
-- jobs and results, each pushed at the head of its list and counted.
pub mod Ports
pub mod Jobs
pub mod Results
pub mod Address
use ini.Base.{
  Bool, Bytes, List, Option, [], false, if◌then◌else◌, ltb, none, some, true, ℕ, ◌+◌, ◌-◌, ◌||◌,
  ◌∷◌,
}

-- `scan_type` is one of SYN_SCAN, 0, to UDP_SCAN, 5.
pub record Job : Type 0 where
  pub ip : Bytes
  pub portno : ℕ
  pub scan_type : ℕ

-- `result` has a place for each scan type; NONE, -2, is `none`.
pub record ScanResult : Type 0 where
  pub ip : Bytes
  pub service : Bytes
  pub result : List (Option ℕ)
  pub conclusion : ℕ
  pub portno : ℕ
  pub scan_type : ℕ

-- The static variables. `scan_mode` is `none` while it is NONE or UNASSIGNED.
pub record Setup : Type 0 where
  pub ip_list : List Bytes
  pub port_list : List ℕ
  pub job_masterlist : List Job
  pub job_list : List Job
  pub result_masterlist : List ScanResult
  pub ip_list_count : ℕ
  pub port_list_count : ℕ
  pub job_masterlist_count : ℕ
  pub job_list_count : ℕ
  pub result_list_count : ℕ
  pub scan : List Bool
  pub scan_mode : Option ℕ

-- `list != NULL`, and a string that is not empty.
abbrev pub not_null {ℓ} : {A : Type ℓ} → List A → Bool
not_null [] = false
not_null (x ∷ xs) = true

abbrev pub max_ports : ℕ
max_ports = 1024

-- A port below 0 is refused as 0 is.
unfoldable pub push_port : ℕ → Setup → Setup
push_port n s =
    if ltb max_ports n || ltb n 1
    then s
    else record s { port_list = n ∷ s.port_list; port_list_count = s.port_list_count + 1 }

-- `gethostbyname` and `inet_ntoa`: a name and its address in dots, if it has one.
unfoldable pub push_ip : (Bytes → Option Bytes) → Bytes → Setup → Setup
push_ip resolve name s = elim (resolve name) [
  | none ↦ s
  | some a ↦ record s { ip_list = a ∷ s.ip_list; ip_list_count = s.ip_list_count + 1 }
]

unfoldable pub push_job : Bytes → ℕ → ℕ → Setup → Setup
push_job ip port type s = record s {
  job_masterlist = (record { ip = ip; portno = port; scan_type = type }) ∷ s.job_masterlist;
  job_masterlist_count = s.job_masterlist_count + 1;
}

-- NONE is `none`.
unfoldable pub change_scan_mode : Option ℕ → Setup → Setup
change_scan_mode none s = record s { scan_mode = none }
change_scan_mode (some t) s = record s {
  job_list = s.job_masterlist;
  job_list_count = s.job_masterlist_count;
  scan_mode = some t;
}

unfoldable pub get_next_job : Setup → Option Job × Setup
get_next_job s = elim s.job_masterlist [
  | [] ↦ (none, s)
  | j ∷ js ↦
      (some j, record s { job_masterlist = js; job_masterlist_count = s.job_masterlist_count - 1 })
]

unfoldable pub destroy_iplist : Setup → Setup
destroy_iplist s = record s { ip_list = []; ip_list_count = 0 }

unfoldable pub destroy_portlist : Setup → Setup
destroy_portlist s = record s { port_list = []; port_list_count = 0 }

unfoldable pub destroy_joblist : Setup → Setup
destroy_joblist s = record s {
  job_masterlist = [];
  job_list = [];
  job_list_count = 0;
  job_masterlist_count = 0;
}

unfoldable pub destroy_results : Setup → Setup
destroy_results s = record s { result_masterlist = []; result_list_count = 0 }
