-- ===== src/Tests/Scans.antt =====
-- Runs of portscan/ps_setup.c, and its theorems at concrete inputs.
use ini.Base.{List, Option, [], arith, false, none, refl, some, true, ℕ, ◌&&◌, ◌||◌, ◌∷◌, ◌≡◌}
use ini.Scan.{ScanResult, Setup}
use ini.Scan.Address.{find_netmask}
use ini.Scan.Address.Mask.{find_netmask-mask_bytes}
use ini.Scan.Jobs.{create_jobs}
use ini.Scan.Jobs.Laws.{create_jobs-hand_out, hand_out, jobs_to_do}
use ini.Scan.Ports.{after_dash, atoi, get_ports, get_ports_range}
use ini.Scan.Ports.Laws.{between, get_ports_range-has, has}
use ini.Scan.Results.{conclude, push_result}
use ini.Scan.Results.Laws.{HasResult, IsTable, push_result-IsTable}
use ini.Scan.Results.Least.{conclude-IsLeast}
use ini.Tests.Runs.{codes}
use ini.Text.{newline_sign}

abbrev empty_setup : Setup
empty_setup = record {
  ip_list = [];
  port_list = [];
  job_masterlist = [];
  job_list = [];
  result_masterlist = [];
  ip_list_count = 0;
  port_list_count = 0;
  job_masterlist_count = 0;
  job_list_count = 0;
  result_list_count = 0;
  scan = true ∷ false ∷ false ∷ false ∷ false ∷ true ∷ [];
  scan_mode = none;
}

abbrev ports_of : Option Setup → List ℕ
ports_of none = []
ports_of (some s) = s.port_list

-- A port above 1024 is left out.
got_ports :
    ports_of (get_ports (codes "1,3-5,,2000,1023-1030") empty_setup)
    ≡ 1024 ∷ 1023 ∷ 5 ∷ 4 ∷ 3 ∷ 1 ∷ []
unfolding get_ports
got_ports = refl

-- Without a dash there is no range: with `--ports 2000` no port is pushed, and this is called.
no_range : get_ports_range (codes "2000") empty_setup ≡ none
unfolding get_ports_range
no_range = refl

-- No `int` is above INT_MAX, so that such a loop does not end.
no_end : get_ports (codes "1000-2147483647") empty_setup ≡ none
unfolding get_ports
no_end = refl

white_space : atoi (newline_sign ∷ b' ' ∷ b'+' ∷ b'7' ∷ b'x' ∷ []) ≡ some 7
unfolding atoi
white_space = refl

get_ports_range-has_example :
    (s' : Setup) × (get_ports_range (codes "3-5") empty_setup ≡ some s')
    × ((p : ℕ) → has p s'.port_list ≡ (has p [] || (between 1 1024 p && between 3 5 p)))
unfolding after_dash atoi
get_ports_range-has_example =
    get_ports_range-has (codes "3-5") empty_setup {pos = codes "5"} refl refl refl (omega arith)

abbrev ready_setup : Setup
ready_setup = record empty_setup {
  ip_list = codes "10.0.0.1" ∷ [];
  port_list = 22 ∷ 80 ∷ [];
  ip_list_count = 1;
  port_list_count = 2;
}

create_jobs-hand_out_example :
    (s' : Setup) × (create_jobs ready_setup ≡ some s')
    × (s'.job_masterlist_count ≡ 4)
    × ((hand_out s'.job_masterlist_count s').0 ≡ jobs_to_do ready_setup)
    × ((hand_out s'.job_masterlist_count s').1.job_masterlist ≡ [])
    × ((hand_out s'.job_masterlist_count s').1.job_masterlist_count ≡ 0)
create_jobs-hand_out_example = create_jobs-hand_out ready_setup refl refl refl

-- The result of a scan: filtered for the first, and then closed for the last.
abbrev first_scan : ScanResult
first_scan = record {
  ip = codes "10.0.0.1";
  service = codes "ssh";
  result = some 2 ∷ none ∷ none ∷ none ∷ none ∷ none ∷ [];
  conclusion = 10;
  portno = 22;
  scan_type = 0;
}

abbrev last_scan : ScanResult
last_scan = record first_scan {
  result = none ∷ none ∷ none ∷ none ∷ none ∷ some 1 ∷ [];
  scan_type = 5;
}

abbrev one_record : List ScanResult
one_record = (record first_scan { conclusion = 2 }) ∷ []

one_record-IsTable :
    IsTable (record ready_setup { result_masterlist = one_record; result_list_count = 1 })
unfolding conclude
one_record-IsTable = record {
  concluded = (conclude-IsLeast first_scan.result 10, tt);
  single = (tt, tt);
  wide = (refl, tt);
  count = refl;
}

abbrev one_result : Setup
one_result = record ready_setup { result_masterlist = one_record; result_list_count = 1 }

push_result-IsTable_example :
    IsTable (push_result last_scan one_result)
    × HasResult last_scan (push_result last_scan one_result).result_masterlist
push_result-IsTable_example =
    push_result-IsTable last_scan one_result (omega arith) (λ e. refl, tt) one_record-IsTable

find_netmask-mask_bytes_example : find_netmask 20 ≡ some (255 ∷ 255 ∷ 240 ∷ 0 ∷ [])
find_netmask-mask_bytes_example = find_netmask-mask_bytes 20 (omega arith) (omega arith)

-- For a shorter prefix another byte is cleared, or one before the array.
mask_12 : find_netmask 12 ≡ some (254 ∷ 241 ∷ 0 ∷ 0 ∷ [])
unfolding find_netmask
mask_12 = refl

mask_7 : find_netmask 7 ≡ none
unfolding find_netmask
mask_7 = refl
