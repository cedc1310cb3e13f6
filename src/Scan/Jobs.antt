-- ===== src/Scan/Jobs.antt =====
-- `create_jobs` of portscan/ps_setup.c: a job for each scan, address and port.
pub mod Laws
use ini.Base.{Bool, Bytes, List, Option, [], if◌then◌else◌, none, some, ℕ, ◌+◌, ◌∷◌}
use ini.Scan.{Setup, not_null, push_job}

unfoldable pub push_ports : Bytes → ℕ → List ℕ → Setup → Setup
unfolding push_job
push_ports ip type [] s = s
push_ports ip type (p ∷ ps) s = push_ports ip type ps (push_job ip p type s)

unfoldable pub push_ips : ℕ → List ℕ → List Bytes → Setup → Setup
unfolding push_ports
push_ips type ps [] s = s
push_ips type ps (ip ∷ ips) s = push_ips type ps ips (push_ports ip type ps s)

-- The scans from the type `i` on.
unfoldable pub push_scans : ℕ → List Bool → List ℕ → List Bytes → Setup → Setup
unfolding push_ips
push_scans i [] ps ips s = s
push_scans i (wanted ∷ scans) ps ips s =
    push_scans (i + 1) scans ps ips (if wanted then push_ips i ps ips s else s)

-- Without a job the program ends with FAILURE.
unfoldable pub create_jobs : Setup → Option Setup
unfolding push_scans
create_jobs s =
    let s' = push_scans 0 s.scan s.port_list s.ip_list s in
    if not_null s'.job_masterlist then some s' else none
